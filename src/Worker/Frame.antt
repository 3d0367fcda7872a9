-- ===== src/Worker/Frame.antt =====
-- What the worker leaves alone.
use markmonica.Base.{
  ℕ, zero, suc, Bool, true, false, not, List, ◌+◌, ◌≡◌, refl, ap, ◌∙◌, Option, none, some, leb,
  if◌then◌else◌,
}
use markmonica.Base.Tables.{find, earliest, length}
use markmonica.Base.Updates.{put_all}
use markmonica.Base.Texts.{Text, text, text_eq, truthy}
use markmonica.Model.{Db, ArchiveJob}
use markmonica.Http.{Result, ok, err, unhandled, ◌>>=◌}
use markmonica.Accounts.{Settings}
use markmonica.Gallery.{or_key}
use markmonica.Uploads.Handlers.{is_uploaded, media_has_id}
use markmonica.Uploads.Cleanup.{cleanup_stale_uploads}
use markmonica.Processing.{
  Tools, process_row, process_media, process_next_pending, run_pending_media,
  requeue_interrupted_processing, requeue_legacy_derivatives, is_ready, awaits_work,
}
use markmonica.Archives.{
  ArchiveTools, build_job, build_archive, process_next_archive, cleanup_expired_archives,
  job_has_id, is_ready_job, queued_job, jobs_over, jobs_stranded, expired_job, stranded_job,
  delete_archives,
}
use markmonica.Worker.{
  Machine, Payload, run_cleanup, handle_payload, handle_job, swept, run_archive_cleanup,
  run_archives, Worker, with_uuid, if_given, interval, run_pending, run_pending_archives, Received,
  nothing, job, no_connection, Readings, done_or, receive, poll, round, start, Runs, stopped,
  looped,
}

-- `db'` is `db` but for the tables of media and of archive jobs.
abbrev pub SameElsewhere : Db → Db → Type 0
SameElsewhere db db' = db' ≡ record db { media = db'.media; archive_jobs = db'.archive_jobs }

abbrev with_tables : Db → Db → Db
with_tables db x = record db { media = x.media; archive_jobs = x.archive_jobs }

same_then : (a b c : Db) → SameElsewhere a b → SameElsewhere b c → SameElsewhere a c
same_then a b c h k =
    let over : Db → Db = λ x. record x { media = c.media; archive_jobs = c.archive_jobs } in
    k ∙ ap over h

-- Both ends of a test.
either : {A : Type 0} (P : A → Type 0) (b : Bool) (x y : A) → P x → P y → P (if b then x else y)
either P true x y h k = h
either P false x y h k = k

on_option :
    {A R : Type 0} (P : R → Type 0) (o : Option A) (x : R) (f : A → R)
    → P x
    → ((a : A) → P (f a))
    → P (elim o [ none ↦ x | some a ↦ f a ])
on_option P none x f h k = h
on_option P (some a) x f h k = k a

abbrev Framed : Db → Bool × Db → Type 0
Framed db r = SameElsewhere db r.1

module _ (str_uuid : ℕ → Text) (t : Tools) where
  process_media_frame : (db : Db) (id : ℕ) → Framed db (process_media str_uuid t db id)
  unfolding process_media process_row
  process_media_frame db id =
      on_option (Framed db) (find (media_has_id id) db.media) (false, db) _ refl
        λ m.
          either (Framed db) (not (is_uploaded m.status)) (false, db) _ refl
            (either (Framed db) (is_ready m.processing_status) (true, db)
              (process_row str_uuid t db m) refl refl)

  run_pending_media_frame : (n : ℕ) (db : Db) → SameElsewhere db (run_pending_media str_uuid t n db)
  unfolding run_pending_media process_next_pending
  run_pending_media_frame zero db = refl
  run_pending_media_frame (suc n) db =
      on_option
        (λ (r : Bool × Db).
          SameElsewhere db (if r.0 then run_pending_media str_uuid t n r.1 else r.1))
        (earliest (λ m. m.created_at) awaits_work db.media) (false, db) _ refl
        λ m.
          let db' = (process_media str_uuid t db m.id).1 in
          same_then db db' (run_pending_media str_uuid t n db') (process_media_frame db m.id)
            (run_pending_media_frame n db')

module _ (s : Settings) (t : ArchiveTools) (now : ℕ) where
  build_archive_frame : (db : Db) (id : ℕ) → Framed db (build_archive s t now db id)
  unfolding build_archive build_job
  build_archive_frame db id =
      on_option (Framed db) (find (job_has_id id) db.archive_jobs) (false, db) _ refl
        λ j.
          either (Framed db) (is_ready_job j.status) (true, db) (build_job s t now db j) refl refl

module _ (m : Machine) (now : ℕ) where
  run_archives_frame : (n : ℕ) (db : Db) → SameElsewhere db (run_archives m now n db)
  unfolding run_archives process_next_archive
  run_archives_frame zero db = refl
  run_archives_frame (suc n) db =
      on_option
        (λ (r : Bool × Db). SameElsewhere db (if r.0 then run_archives m now n r.1 else r.1))
        (earliest (λ j. j.created_at) queued_job db.archive_jobs) (false, db) _ refl
        λ j.
          let db' = (build_archive m.settings m.archive_tools now db j.id).1 in
          same_then db db' (run_archives m now n db')
            (build_archive_frame m.settings m.archive_tools now db j.id) (run_archives_frame n db')

  run_cleanup_frame : (db : Db) → SameElsewhere db (run_cleanup m now db)
  unfolding run_cleanup cleanup_stale_uploads
  run_cleanup_frame db = refl

  swept_frame :
      (db : Db) (r : Result (Unit {0})) (n : ℕ) (jobs : List ArchiveJob)
      → SameElsewhere db (swept m now db (r >>= λ u. ok (n, record db { archive_jobs = jobs })))
  swept_frame db (ok u) n jobs = refl
  swept_frame db (err e) n jobs = refl

  run_archive_cleanup_frame : (db : Db) → SameElsewhere db (run_archive_cleanup m now db)
  unfolding run_archive_cleanup cleanup_expired_archives
  run_archive_cleanup_frame db =
      let over = jobs_over m.settings now db.archive_jobs in
      let kept = put_all (λ j. j.id) expired_job over db.archive_jobs in
      swept_frame db (delete_archives m.request over) (length over)
        (put_all (λ j. j.id) stranded_job (jobs_stranded m.settings now kept) kept)

  with_uuid_frame :
      (db : Db) (o : Option Text) (k : ℕ → Db)
      → ((id : ℕ) → SameElsewhere db (k id))
      → SameElsewhere db (done_or db (if_given db o λ t. with_uuid m.settings t k))
  with_uuid_frame db none k h = refl
  with_uuid_frame db (some t) k h =
      on_option (λ r. SameElsewhere db (done_or db r)) (m.settings.parse_uuid t) (err unhandled) _
        refl h

  -- A job, whatever it is.
  payload_frame :
      (db : Db) (p : Payload) → SameElsewhere db (done_or db (handle_payload m now db p))
  payload_frame db p =
      let P : Result Db → Type 0 = λ r. SameElsewhere db (done_or db r) in
      either P (text_eq p.type (text "ping")) _ _ refl (
        either P (text_eq p.type (text "cleanup_stale_uploads")) _ _ (run_cleanup_frame db) (
          either P (text_eq p.type (text "process_media")) _ _
            (with_uuid_frame db (truthy p.media_id)
              (λ id. (process_media m.settings.str_uuid m.tools db id).1)
              (process_media_frame m.settings.str_uuid m.tools db))
            (either P (text_eq p.type (text "build_archive")) _ _
              (with_uuid_frame db (truthy (or_key p.job_id p.archive_job_id))
                (λ id. (build_archive m.settings m.archive_tools now db id).1)
                (build_archive_frame m.settings m.archive_tools now db))
              refl)))

  receive_frame : (db : Db) (r : Received) → SameElsewhere db (receive m now db r)
  unfolding handle_job
  receive_frame db nothing = refl
  receive_frame db (job payload) =
      on_option (λ r. SameElsewhere db (done_or db r)) (m.read_job payload) (err unhandled) _ refl
        (payload_frame db)
  receive_frame db no_connection = refl

poll_frame :
    (a : Db) (t : ℕ × ℕ) (next every : ℕ) (run : Db → Db) (b : Db)
    → ((x : Db) → SameElsewhere x (run x))
    → SameElsewhere a b
    → SameElsewhere a (poll t next every run b).0
poll_frame a (test, reset) next every run b frame h =
    either (λ (r : Db × ℕ). SameElsewhere a r.0) (leb next test) (run b, reset + every) (b, next)
      (same_then a b (run b) h (frame b)) h

round_frame :
    (m : Machine) (now : ℕ) (received : Received) (t : Readings) (w : Worker)
    → SameElsewhere w.db (round m now received t w).db
unfolding round
round_frame m now received t w =
    poll_frame w.db t.archive_cleanup w.timers.next_archive_cleanup m.archive_cleanup_interval
      (run_archive_cleanup m now) _ (run_archive_cleanup_frame m now)
      (poll_frame w.db t.cleanup w.timers.next_cleanup m.cleanup_interval (run_cleanup m now) _
        (run_cleanup_frame m now)
        (poll_frame w.db t.archive_poll w.timers.next_archive_poll interval
          (run_pending_archives m now) _ (run_archives_frame m now 2)
          (poll_frame w.db t.media_poll w.timers.next_media_poll interval (run_pending m now) _
            (run_pending_media_frame m.settings.str_uuid m.tools 3)
            (receive_frame m now w.db received))))

start_frame : (m : Machine) (now clock : ℕ) (db : Db) → SameElsewhere db (start m now clock db).db
unfolding start requeue_legacy_derivatives requeue_interrupted_processing
start_frame m now clock db =
    let a = run_cleanup m now db in
    let b = run_archive_cleanup m now a in
    let c =
      (requeue_legacy_derivatives m.settings.str_uuid (requeue_interrupted_processing b).0).0 in
    let d = run_pending m now c in
    same_then db d (run_archives m now 2 d)
      (same_then db c d
        (same_then db b c
          (same_then db a b (run_cleanup_frame m now db) (run_archive_cleanup_frame m now a)) refl)
        (run_pending_media_frame m.settings.str_uuid m.tools 3 c))
      (run_archives_frame m now 2 d)

loop_frame : (m : Machine) (w w' : Worker) → Runs m w w' → SameElsewhere w.db w'.db
loop_frame m w w' stopped = refl
loop_frame m w w' (looped now received t more) =
    same_then w.db (round m now received t w).db w'.db (round_frame m now received t w)
      (loop_frame m (round m now received t w) w' more)

-- From its start on, whatever jobs it receives, readable or not, however its tools and the store
-- fail, and after any number of rounds, the worker has changed only the tables of media and of
-- archive jobs: accounts, sessions, events, packages, orders and the records of administrators
-- are as they were.
pub worker_keeps_tables :
    (m : Machine) (now clock : ℕ) (db : Db) (w : Worker)
    → Runs m (start m now clock db) w
    → SameElsewhere db w.db
worker_keeps_tables m now clock db w run =
    same_then db (start m now clock db).db w.db (start_frame m now clock db)
      (loop_frame m (start m now clock db) w run)
