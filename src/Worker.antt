-- ===== src/Worker.antt =====
-- The worker (worker/main.py): the jobs that it takes from its queue, the work that it looks for in
-- the database, the sweeps, and the loop with its timers. Redis, the clocks and `json.loads` are
-- arguments; what is only logged is left out.
pub mod Frame
use markmonica.Base.{
  ℕ, zero, suc, ◌+◌, Bool, true, false, Option, none, some, List, leb, if◌then◌else◌,
}
use markmonica.Base.Texts.{Text, text, text_eq, truthy}
use markmonica.Model.{Db}
use markmonica.Http.{Result, ok, err, unhandled, ◌>>=◌}
use markmonica.Accounts.{Settings}
use markmonica.Uploads.Handlers.{Head}
use markmonica.Uploads.Cleanup.{cleanup_stale_uploads}
use markmonica.Processing.{
  Tools, process_media, run_pending_media, requeue_interrupted_processing,
  requeue_legacy_derivatives,
}
use markmonica.Archives.{
  ArchiveTools, build_archive, process_next_archive, cleanup_expired_archives,
}
use markmonica.Gallery.{or_key}

-- What `handle_job` reads of a job, as texts.
pub record Payload : Type 0 where
  pub type : Text
  pub media_id : Option Text
  pub job_id : Option Text
  pub archive_job_id : Option Text

-- What the worker works with: the settings with their intervals, the tools, the object store
-- (HEAD requests, and whether a deletion is accepted), and the reading of a job (`none` where it
-- raises).
pub record Machine : Type 0 where
  pub settings : Settings
  pub cleanup_interval : ℕ
  pub archive_cleanup_interval : ℕ
  pub tools : Tools
  pub archive_tools : ArchiveTools
  pub head : Text → Head
  pub request : List Text → Bool
  pub read_job : Text → Option Payload

-- `uuid.UUID(str(id))`, which may raise
abbrev pub with_uuid : Settings → Text → (ℕ → Db) → Result Db
with_uuid s t k = elim (s.parse_uuid t) [ none ↦ err unhandled | some id ↦ ok (k id) ]

-- `if id: …`
abbrev pub if_given : Db → Option Text → (Text → Result Db) → Result Db
if_given db none k = ok db
if_given db (some t) k = k t

module _ (m : Machine) (now : ℕ) where
  unfoldable pub run_cleanup : Db → Db
  run_cleanup db = (cleanup_stale_uploads m.settings m.head now db).0

  abbrev pub handle_payload : Db → Payload → Result Db
  handle_payload db p =
      if text_eq p.type (text "ping")
      then ok db
      else if text_eq p.type (text "cleanup_stale_uploads")
      then ok (run_cleanup db)
      else if text_eq p.type (text "process_media")
      then if_given db (truthy p.media_id)
          (λ t. with_uuid m.settings t λ id. (process_media m.settings.str_uuid m.tools db id).1)
      else if text_eq p.type (text "build_archive")
      then if_given db (truthy (or_key p.job_id p.archive_job_id))
          (λ t. with_uuid m.settings t λ id. (build_archive m.settings m.archive_tools now db id).1)
      else ok db

  unfoldable pub handle_job : Db → Text → Result Db
  handle_job db payload = elim (m.read_job payload) [
    | none ↦ err unhandled
    | some p ↦ handle_payload db p
  ]

  -- An exception is logged: the database is as it was.
  abbrev pub swept : Db → Result (ℕ × Db) → Db
  swept db (ok (n, db')) = db'
  swept db (err e) = db

  unfoldable pub run_archive_cleanup : Db → Db
  run_archive_cleanup db = swept db (cleanup_expired_archives m.settings m.request now db)

  unfoldable pub run_archives : ℕ → Db → Db
  run_archives zero db = db
  run_archives (suc n) db =
      let (more, db') = process_next_archive m.settings m.archive_tools now db in
      let rest = run_archives n db' in if more then rest else db'

  abbrev pub run_pending_archives : Db → Db
  run_pending_archives db = run_archives 2 db

  abbrev pub run_pending : Db → Db
  run_pending db = run_pending_media m.settings.str_uuid m.tools 3 db

-- The instants at which the worker looks for work next.
pub record Timers : Type 0 where
  pub next_media_poll : ℕ
  pub next_archive_poll : ℕ
  pub next_cleanup : ℕ
  pub next_archive_cleanup : ℕ

pub record Worker : Type 0 where
  pub db : Db
  pub timers : Timers

-- What `blpop` gives: nothing within its five seconds, a job, or no connection.
pub data Received : Type 0 where
  nothing : Received
  job : Text → Received
  no_connection : Received

-- The readings of the clock in one round: for each timer, that of its test and that of its reset.
pub record Readings : Type 0 where
  pub media_poll : ℕ × ℕ
  pub archive_poll : ℕ × ℕ
  pub cleanup : ℕ × ℕ
  pub archive_cleanup : ℕ × ℕ

abbrev pub done_or : Db → Result Db → Db
done_or db (ok db') = db'
done_or db (err e) = db

abbrev pub receive : Machine → ℕ → Db → Received → Db
receive m now db nothing = db
receive m now db (job payload) = done_or db (handle_job m now db payload)
receive m now db no_connection = db

abbrev pub interval : ℕ
interval = 10

-- `if time.monotonic() >= next: run(); next = time.monotonic() + interval`
abbrev pub poll : ℕ × ℕ → ℕ → ℕ → (Db → Db) → Db → Db × ℕ
poll (test, reset) next every run db = if leb next test then (run db, reset + every) else (db, next)

-- One round of the loop.
unfoldable pub round : Machine → ℕ → Received → Readings → Worker → Worker
round m now received t w =
    let (db₁, media) =
      poll t.media_poll w.timers.next_media_poll interval (run_pending m now)
        (receive m now w.db received) in
    let (db₂, archive) =
      poll t.archive_poll w.timers.next_archive_poll interval (run_pending_archives m now) db₁ in
    let (db₃, cleanup) =
      poll t.cleanup w.timers.next_cleanup m.cleanup_interval (run_cleanup m now) db₂ in
    let (db₄, archive_cleanup) =
      poll t.archive_cleanup w.timers.next_archive_cleanup m.archive_cleanup_interval
        (run_archive_cleanup m now) db₃ in
    record {
      db = db₄;
      timers = record {
        next_media_poll = media;
        next_archive_poll = archive;
        next_cleanup = cleanup;
        next_archive_cleanup = archive_cleanup;
      };
    }

-- What `main` does before the loop.
unfoldable pub start : Machine → ℕ → ℕ → Db → Worker
start m now clock db =
    let swept = run_archive_cleanup m now (run_cleanup m now db) in
    let requeued =
      (requeue_legacy_derivatives m.settings.str_uuid (requeue_interrupted_processing swept).0).0 in
    record {
      db = run_pending_archives m now (run_pending m now requeued);
      timers = record {
        next_media_poll = clock + interval;
        next_archive_poll = clock + interval;
        next_cleanup = clock + m.cleanup_interval;
        next_archive_cleanup = clock + m.archive_cleanup_interval;
      };
    }

-- The loop, until a signal stops it: any number of rounds, each with what it receives and reads.
pub data Runs (m : Machine) : Worker → Worker → Type 0 where
  stopped : {w : Worker} → Runs m w w
  looped :
      {w w' : Worker} (now : ℕ) (received : Received) (t : Readings)
      → Runs m (round m now received t w) w'
      → Runs m w w'
