-- ===== src/Archives.antt =====
-- Generated downloads (app/services/archive.py): the names in an archive, the life of a job, its
-- expiry and the sweep of old jobs. The object store, the ZIP writer and JSON are parameters.
pub mod Fresh
pub mod Life
pub mod Sweep
pub mod Downloads
use markmonica.Base.{
  ℕ, zero, suc, ◌+◌, ◌-◌, ◌*◌, Bool, true, false, not, ◌&&◌, ◌||◌, Option, none, some, List, [],
  ◌∷◌, ◌++◌, max, ltb, leb, ◌==◌, if◌then◌else◌,
}
use markmonica.Base.Tables.{find, put, select, earliest, length, take}
use markmonica.Base.Updates.{sort_by, put_all}
use markmonica.Base.Numerals.{show_ℕ}
use markmonica.Base.Texts.{Text, text, lower, one_of, or_else, truthy, is_given}
use markmonica.Model.{Db, Media, ArchiveJob, ArchiveStatus}
use markmonica.Http.{Result, ok, err, ◌>>=◌}
use markmonica.Accounts.{Settings}
use markmonica.Names.{path_name}
use markmonica.Uploads.Handlers.{is_uploaded}
use markmonica.Storage.{delete_objects}
use mathlib.Core.List.{reverse}

-- A name cut at its last dot: the part before it and the rest, `none` where there is no dot. The
-- name is read from its end, `after` being what follows.
abbrev pub cut_at_dot : Text → Text → Option (Text × Text)
cut_at_dot after [] = none
cut_at_dot after (c ∷ t) = if c == 46 then some (reverse t, c ∷ after) else cut_at_dot (c ∷ after) t

-- `path.stem` and `path.suffix` of a name: a dot at either end makes no suffix.
abbrev stem_and_suffix : Text → Option (Text × Text) → Text × Text
stem_and_suffix name none = (name, [])
stem_and_suffix name (some ([], suffix)) = (name, [])
stem_and_suffix name (some (c ∷ stem, dot ∷ [])) = (name, [])
stem_and_suffix name (some (c ∷ stem, suffix)) = (c ∷ stem, suffix)

unfoldable pub split_name : Text → Text × Text
split_name name = stem_and_suffix name (cut_at_dot [] (reverse name))

-- `f"{stem}-{n}{suffix}"`
unfoldable pub numbered : Text → Text → ℕ → Text
numbered stem suffix n = stem ++ text "-" ++ show_ℕ n ++ suffix

-- The `while` loop from the second candidate on; `none` is a loop that outran its fuel.
unfoldable pub number_from : ℕ → Text → Text → List Text → ℕ → Option Text
number_from zero stem suffix used n = none
number_from (suc fuel) stem suffix used n =
    let rest = number_from fuel stem suffix used (n + 1) in
    if one_of (lower (numbered stem suffix n)) used then rest else some (numbered stem suffix n)

-- `_unique_name`, on the names used so far.
unfoldable pub unique_name : Text → List Text → Option Text
unique_name name used =
    let base = path_name name in
    let parts = split_name base in
    if one_of (lower base) used
    then number_from (suc (length used)) (or_else parts.0 (text "memory")) parts.1 used 2
    else some base

-- What the archive's tools answer: nothing, or the text of an exception.
pub record ArchiveTools : Type 0 where
  pub download : Text → Option Text
  pub write : Text → Option Text
  pub upload : Text → Option Text
  -- `json.loads`, `none` where it raises
  pub read_ids : Text → Option (List ℕ)

pub data Built (A : Type 0) : Type 0 where
  done : A → Built A
  failed : Text → Built A

infixr 5 ◌>>◌
abbrev pub ◌>>◌ : {A : Type 0} → Option Text → Built A → Built A
none >> k = k
some e >> k = failed e

-- The loop over numbered names ends (`Fresh.unique_name_fresh`), so the second case is no case.
abbrev pub with_name : {A : Type 0} → Option Text → (Text → Built A) → Built A
with_name (some name) k = k name
with_name none k = failed []

-- The loop over the items: the names used in the end, in lower case, the latest first.
unfoldable pub write_items : ArchiveTools → List Text → List Media → Built (List Text)
write_items t used [] = done used
write_items t used (m ∷ ms) = do
  t.download m.object_key
  with_name (unique_name m.original_filename used)
      λ name. t.write name >> write_items t (lower name ∷ used) ms

abbrev pub job_has_id : ℕ → ArchiveJob → Bool
job_has_id id j = j.id == id

abbrev pub save_job : ArchiveJob → Db → Db
save_job j db = record db { archive_jobs = put (job_has_id j.id) j db.archive_jobs }

abbrev pub is_ready_job : ArchiveStatus → Bool
is_ready_job ArchiveStatus.ready = true
is_ready_job _ = false

abbrev pub is_queued_job : ArchiveStatus → Bool
is_queued_job ArchiveStatus.queued = true
is_queued_job _ = false

abbrev pub is_processing_job : ArchiveStatus → Bool
is_processing_job ArchiveStatus.processing = true
is_processing_job _ = false

abbrev pub is_expired_job : ArchiveStatus → Bool
is_expired_job ArchiveStatus.expired = true
is_expired_job _ = false

unfoldable pub id_in : List ℕ → ℕ → Bool
id_in [] id = false
id_in (k ∷ ks) id = k == id || id_in ks id

-- The items that a job asks for: all of its event's, or those that it names.
unfoldable pub requested_items : Db → ArchiveJob → Option (List ℕ) → List Media
requested_items db j none =
    sort_by (λ m. m.created_at)
      (select (λ m. m.event_id == j.event_id && is_uploaded m.status) db.media)
requested_items db j (some ids) =
    sort_by (λ m. m.created_at)
      (select (λ m. m.event_id == j.event_id && is_uploaded m.status && id_in ids m.id) db.media)

abbrev pub read_as : {A : Type 0} → Option (List ℕ) → (Option (List ℕ) → Built A) → Built A
read_as none k = failed (text "unreadable")
read_as (some ids) k = k (some ids)

-- `ids`, which `json.loads` and `uuid.UUID` read, if there is a text.
abbrev pub with_ids :
    {A : Type 0} → ArchiveTools → Option Text → (Option (List ℕ) → Built A) → Built A
with_ids t none k = k none
with_ids t (some s) k = read_as (t.read_ids s) k

-- `f"events/{job.event_id}/archives/{job.id}.zip"`
unfoldable pub archive_key : Settings → ArchiveJob → Text
archive_key s j =
    text "events/" ++ s.str_uuid j.event_id ++ text "/archives/" ++ s.str_uuid j.id ++ text ".zip"

abbrev pub with_media : {A : Type 0} → List Media → Built A → Built A
with_media [] k = failed (text "No uploaded media was available for this archive.")
with_media (m ∷ ms) k = k

abbrev pub upload_as : Option Text → Text → Built (List Text) → Built Text
upload_as error key (failed e) = failed e
upload_as error key (done names) = error >> done key

-- The body of the `try`: the key of the archive.
unfoldable pub write_archive : Settings → ArchiveTools → Db → ArchiveJob → Built Text
write_archive s t db j = with_ids t (truthy j.requested_media_ids) λ ids.
    let items = requested_items db j ids in
    let key = archive_key s j in
    with_media items (upload_as (t.upload key) key (write_items t [] items))

abbrev pub started_job : ArchiveJob → ArchiveJob
started_job j = record j { status = ArchiveStatus.processing; error = none }

abbrev pub finished_job : ℕ → ArchiveJob → Built Text → ArchiveJob
finished_job now j (done key) = record j {
  object_key = some key;
  status = ArchiveStatus.ready;
  completed_at = some now;
}
finished_job now j (failed e) = record j {
  status = ArchiveStatus.failed;
  error = some (take 2000 e);
}

abbrev pub is_done : Built Text → Bool
is_done (done key) = true
is_done (failed e) = false

-- `build_archive` on a job that is not ready.
unfoldable pub build_job : Settings → ArchiveTools → ℕ → Db → ArchiveJob → Bool × Db
build_job s t now db j =
    let outcome = write_archive s t db (started_job j) in
    (
      is_done outcome,
      save_job (finished_job now (started_job j) outcome) (save_job (started_job j) db),
    )

unfoldable pub build_archive : Settings → ArchiveTools → ℕ → Db → ℕ → Bool × Db
build_archive s t now db id = elim (find (job_has_id id) db.archive_jobs) [
  | none ↦ (false, db)
  | some j ↦ if is_ready_job j.status then (true, db) else build_job s t now db j
]

abbrev pub queued_job : ArchiveJob → Bool
queued_job j = is_queued_job j.status

unfoldable pub process_next_archive : Settings → ArchiveTools → ℕ → Db → Bool × Db
process_next_archive s t now db = elim (earliest (λ j. j.created_at) queued_job db.archive_jobs) [
  | none ↦ (false, db)
  | some j ↦ (true, (build_archive s t now db j.id).1)
]

abbrev pub hour : ℕ
hour = 3600

-- `archive_expires_at`, with the retention of the settings.
unfoldable pub archive_expires_at : Settings → Option ℕ → Option ℕ
archive_expires_at s none = none
archive_expires_at s (some at) = some (at + max 1 s.archive_retention_hours * hour)

abbrev past : ℕ → Option ℕ → Bool
past now none = false
past now (some at) = leb at now

unfoldable pub archive_is_expired : Settings → ℕ → Option ℕ → Bool
unfolding archive_expires_at
archive_is_expired s now completed_at = past now (archive_expires_at s completed_at)

abbrev pub completed_before : ℕ → Option ℕ → Bool
completed_before cutoff none = false
completed_before cutoff (some at) = leb at cutoff

-- The ready jobs that the sweep expires, and those in process that it gives up.
abbrev pub is_over : ℕ → ArchiveJob → Bool
is_over cutoff j =
    is_ready_job j.status && completed_before cutoff j.completed_at && is_given j.object_key

abbrev pub is_stranded : ℕ → ArchiveJob → Bool
is_stranded cutoff j = is_processing_job j.status && leb j.created_at cutoff

abbrev pub expired_job : ArchiveJob → ArchiveJob
expired_job j = record j { object_key = none; status = ArchiveStatus.expired }

abbrev pub stranded_job : ArchiveJob → ArchiveJob
stranded_job j = record j {
  status = ArchiveStatus.failed;
  error = some (text "Archive generation was interrupted. Please generate a new download.");
}

abbrev pub completion : ArchiveJob → ℕ
completion j = elim j.completed_at [ none ↦ 0 | some at ↦ at ]

-- Each archive's object is deleted in turn; an error ends the sweep with nothing committed.
unfoldable pub delete_archives : (List Text → Bool) → List ArchiveJob → Result (Unit {0})
delete_archives request [] = ok tt
delete_archives request (j ∷ js) =
    delete_objects request (j.object_key ∷ []) >>= λ u. delete_archives request js

abbrev pub sweep_limit : ℕ
sweep_limit = 100

-- The jobs that a sweep takes up, with the cutoffs of its instant.
abbrev pub archive_cutoff : Settings → ℕ → ℕ
archive_cutoff s now = now - max 1 s.archive_retention_hours * hour

abbrev pub stale_cutoff : Settings → ℕ → ℕ
stale_cutoff s now = now - max 1 s.archive_stale_job_hours * hour

unfoldable pub jobs_over : Settings → ℕ → List ArchiveJob → List ArchiveJob
jobs_over s now jobs =
    take sweep_limit (sort_by completion (select (is_over (archive_cutoff s now)) jobs))

unfoldable pub jobs_stranded : Settings → ℕ → List ArchiveJob → List ArchiveJob
jobs_stranded s now jobs =
    take sweep_limit (sort_by (λ j. j.created_at) (select (is_stranded (stale_cutoff s now)) jobs))

-- `cleanup_expired_archives`: the number of archives that expired, and the new database.
unfoldable pub cleanup_expired_archives : Settings → (List Text → Bool) → ℕ → Db → Result (ℕ × Db)
cleanup_expired_archives s request now db =
    let over = jobs_over s now db.archive_jobs in
    delete_archives request over >>= λ u.
    let kept = put_all (λ j. j.id) expired_job over db.archive_jobs in
    let jobs = put_all (λ j. j.id) stranded_job (jobs_stranded s now kept) kept in
    ok (length over, record db { archive_jobs = jobs })
