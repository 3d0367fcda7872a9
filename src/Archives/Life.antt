-- ===== src/Archives/Life.antt =====
-- The life of an archive job: building it always settles it.
use mathlib.Core.Path.{subst}
use markmonica.Base.{
  ◌∷◌, ℕ, Bool, true, false, ◌==◌, ◌≡◌, refl, sym, ap, ◌∙◌, Option, none, some, List, [], arith,
  ==_refl,
}
use markmonica.Base.Tables.{find, put, find-put, find-put_other}
use markmonica.Base.Texts.{Text, truthy}
use markmonica.Model.{Db, Media, ArchiveJob, ArchiveStatus}
use markmonica.Accounts.{Settings}
use markmonica.Archives.{
  ArchiveTools, Built, done, failed, write_items, job_has_id, is_ready_job, write_archive, read_as,
  with_ids, with_media, upload_as, requested_items, archive_key, started_job, finished_job, is_done,
  build_job, build_archive,
}

-- How a job is left: ready, with the key of its archive, or failed, with the reason.
abbrev pub SettledAs : Settings → ℕ → ArchiveJob → ArchiveJob → Bool → Type 0
SettledAs s now j f true =
    (f.status ≡ ArchiveStatus.ready)
    × (f.object_key ≡ some (archive_key s j))
    × (f.completed_at ≡ some now)
SettledAs s now j f false =
    (f.status ≡ ArchiveStatus.failed)
    × (f.object_key ≡ j.object_key)
    × (f.completed_at ≡ j.completed_at)

-- What a build leaves: the job settled under its id, every other job and every item as before.
pub record Settled (s : Settings) (now : ℕ) (db : Db) (j : ArchiveJob) (result : Bool × Db)
    : Type 0 where
  pub now_job : ArchiveJob
  pub stored : find (job_has_id j.id) result.1.archive_jobs ≡ some now_job
  pub settled : SettledAs s now j now_job result.0
  pub same_event : now_job.event_id ≡ j.event_id
  pub others :
      (k : ℕ)
      → (j.id == k) ≡ false
      → find (job_has_id k) result.1.archive_jobs ≡ find (job_has_id k) db.archive_jobs
  pub media : result.1.media ≡ db.media

read_as_done :
    (o : Option (List ℕ)) (k : Option (List ℕ) → Built Text) {key : Text}
    → read_as o k ≡ done key
    → (ids : Option (List ℕ)) × (k ids ≡ done key)
read_as_done none k h = cc
read_as_done (some ids) k h = (some ids, h)

with_ids_done :
    (t : ArchiveTools) (o : Option Text) (k : Option (List ℕ) → Built Text) {key : Text}
    → with_ids t o k ≡ done key
    → (ids : Option (List ℕ)) × (k ids ≡ done key)
with_ids_done t none k h = (none, h)
with_ids_done t (some s) k h = read_as_done (t.read_ids s) k h

with_media_done :
    (ms : List Media) (k : Built Text) {key : Text} → with_media ms k ≡ done key → k ≡ done key
with_media_done [] k h = cc
with_media_done (m ∷ ms) k h = h

upload_as_done :
    (e : Option Text) (key : Text) (o : Built (List Text)) {k : Text}
    → upload_as e key o ≡ done k
    → k ≡ key
upload_as_done none key (done names) h = cc
upload_as_done (some e) key (done names) h = cc
upload_as_done e key (failed x) h = cc

-- What is written is the archive under the job's own key.
write_archive_key :
    (s : Settings) (t : ArchiveTools) (db : Db) (j : ArchiveJob) (k : Text)
    → write_archive s t db j ≡ done k
    → k ≡ archive_key s j
unfolding write_archive
write_archive_key s t db j k h =
    let (ids, h₁) = with_ids_done t (truthy j.requested_media_ids) _ h in
    let items = requested_items db j ids in
    upload_as_done (t.upload (archive_key s j)) (archive_key s j) (write_items t [] items)
      (with_media_done items _ h₁)

settled_as :
    (s : Settings) (now : ℕ) (j : ArchiveJob) (o : Built Text)
    → ((k : Text) → o ≡ done k → k ≡ archive_key s j)
    → SettledAs s now j (finished_job now (started_job j) o) (is_done o)
settled_as s now j (done k) h = (refl, ap some (h k refl), refl)
settled_as s now j (failed e) h = (refl, refl, refl)

finished_id : (now : ℕ) (j : ArchiveJob) (o : Built Text) → (finished_job now j o).id ≡ j.id
finished_id now j (done k) = refl
finished_id now j (failed e) = refl

finished_event :
    (now : ℕ) (j : ArchiveJob) (o : Built Text) → (finished_job now j o).event_id ≡ j.event_id
finished_event now j (done k) = refl
finished_event now j (failed e) = refl

-- Building a stored job that is not ready settles it, whatever the tools answer: it is ready, with
-- the key of its own archive and the instant of completion, exactly where the build reports
-- success, and else it is failed and keeps its key and its instant. No other job and no item
-- changes.
pub build_archive_settles :
    (s : Settings) (t : ArchiveTools) (now : ℕ) (db : Db) (j : ArchiveJob)
    → find (job_has_id j.id) db.archive_jobs ≡ some j
    → is_ready_job j.status ≡ false
    → Settled s now db j (build_archive s t now db j.id)
unfolding build_archive build_job archive_key
build_archive_settles s t now db j found unready =
    let begun = started_job j in
    let o = write_archive s t db begun in
    let f = finished_job now begun o in
    let same : f.id ≡ j.id = finished_id now begun o in
    let table = put (job_has_id j.id) begun db.archive_jobs in
    let first = find-put (job_has_id j.id) begun db.archive_jobs found (==_refl j.id) in
    let own : (f.id == j.id) ≡ true = rw same (==_refl j.id) in
    let last = find-put (job_has_id j.id) f table first own in
    let write : put (job_has_id f.id) f table ≡ put (job_has_id j.id) f table =
      ap (λ k. put (job_has_id k) f table) same in
    rw (build_archive, found, unready)
      (record {
        now_job = f;
        stored = subst (λ ts. find (job_has_id j.id) ts ≡ some f) (sym write) last;
        settled = settled_as s now j o (write_archive_key s t db begun);
        same_event = finished_event now begun o;
        others = λ k apart.
            let apart' : (f.id == k) ≡ false = rw same apart in
            subst (λ ts. find (job_has_id k) ts ≡ find (job_has_id k) db.archive_jobs) (sym write)
              (find-put_other (job_has_id k) (job_has_id j.id) f table (λ x e. ground arith) apart'
                ∙ find-put_other (job_has_id k) (job_has_id j.id) begun db.archive_jobs
                    (λ x e. ground arith) apart);
        media = refl;
      })
