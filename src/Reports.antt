-- ===== src/Reports.antt =====
-- The administrator's figures: `analytics` (app/admin_analytics.py) and `system`
-- (app/admin_system.py). Bars, labels and lists that only a page shows are left out; the checks of
-- PostgreSQL, Redis and the bucket are arguments. Rows are taken in any order, since the figures
-- are counts and sums.
pub mod Daily
pub mod Health
use markmonica.Base.{
  ℕ, zero, suc, ◌+◌, ◌-◌, ◌*◌, ◌/◌, Bool, true, false, not, ◌&&◌, ◌||◌, Option, none, some, List,
  [], ◌∷◌, ltb, leb, ◌==◌, is_some,
}
use markmonica.Base.Tables.{select, count, sum_of, length}
use markmonica.Model.{Db, User, Event, Media, ArchiveJob, ProcessingStatus, ArchiveStatus}
use markmonica.Http.{Result, ok, ◌>>=◌, Request}
use markmonica.Accounts.{Settings, require_admin}
use markmonica.Processing.{is_ready}
use markmonica.Uploads.Handlers.{is_live}
use markmonica.Archives.{is_queued_job, is_processing_job}

abbrev pub day : ℕ
day = 86400

-- `_day`, as the number of the day
abbrev pub day_of : ℕ → ℕ
day_of t = t / day

abbrev pub every {ℓ} : {A : Type ℓ} → A → Bool
every x = true

abbrev pub is_failed : ProcessingStatus → Bool
is_failed ProcessingStatus.failed = true
is_failed _ = false

abbrev pub since {ℓ} : {A : Type ℓ} → (A → ℕ) → ℕ → List A → List A
since at start rows = select (λ x. leb start (at x)) rows

-- `Counter` of the days, at one day, and the sum of a value over that day.
abbrev pub on_day {ℓ} : {A : Type ℓ} → (A → ℕ) → ℕ → A → Bool
on_day at d x = day_of (at x) == d

pub record DailyRow : Type 0 where
  pub date : ℕ
  pub users : ℕ
  pub events : ℕ
  pub media : ℕ
  pub storage : ℕ

abbrev pub daily_row : List User → List Event → List Media → ℕ → DailyRow
daily_row users events media d = record {
  date = d;
  users = count (on_day (λ u. u.created_at) d) users;
  events = count (on_day (λ e. e.created_at) d) events;
  media = count (on_day (λ m. m.created_at) d) media;
  storage = sum_of (on_day (λ m. m.created_at) d) (λ m. m.size_bytes) media;
}

-- `[(start + timedelta(days=i)).date() for i in range(30)]`, from `i` on.
unfoldable pub days_from : ℕ → ℕ → ℕ → List ℕ
days_from zero i start = []
days_from (suc n) i start = day_of (start + i * day) ∷ days_from n (suc i) start

unfoldable pub daily_rows : List User → List Event → List Media → List ℕ → List DailyRow
daily_rows users events media [] = []
daily_rows users events media (d ∷ ds) =
    daily_row users events media d ∷ daily_rows users events media ds

pub record Analytics : Type 0 where
  pub users : ℕ
  pub events : ℕ
  pub live_events : ℕ
  pub media : ℕ
  pub storage : ℕ
  pub failed : ℕ
  pub processing_attention : ℕ
  pub new_users : ℕ
  pub new_events : ℕ
  pub new_media : ℕ
  pub daily : List DailyRow

abbrev pub figures : ℕ → Db → Analytics
figures now db =
    let start = now - 29 * day in
    let recent_users = since (λ u. u.created_at) start db.users in
    let recent_events = since (λ e. e.created_at) start db.events in
    let recent_media = since (λ m. m.created_at) start db.media in
    record {
      users = length db.users;
      events = length db.events;
      live_events = count (λ e. is_live e.status) db.events;
      media = length db.media;
      storage = sum_of every (λ m. m.size_bytes) db.media;
      failed = count (λ m. is_failed m.processing_status) db.media;
      processing_attention = count (λ m. not (is_ready m.processing_status)) db.media;
      new_users = length recent_users;
      new_events = length recent_events;
      new_media = length recent_media;
      daily = daily_rows recent_users recent_events recent_media (days_from 30 0 start);
    }

unfoldable pub analytics : Settings → Request → Db → Result Analytics
analytics s req db = do admin ← require_admin s req db; ok (figures req.now db)

-- What the checks of the services gave: Redis's ping with the length of the queue, `none` where it
-- failed.
pub record Services : Type 0 where
  pub database_ok : Bool
  pub queue_depth : Option ℕ
  pub storage_ok : Bool

pub record System : Type 0 where
  pub overall_ok : Bool
  pub failed_media : ℕ
  pub stale_processing : ℕ
  pub processing_attention : ℕ
  pub archive_total : ℕ
  pub archive_failed : ℕ
  pub archive_active : ℕ
  pub media_count : ℕ
  pub storage_total : ℕ

abbrev pub is_failed_job : ArchiveStatus → Bool
is_failed_job ArchiveStatus.failed = true
is_failed_job _ = false

-- Neither processed nor failed, and created more than two hours ago.
abbrev pub is_stuck : ℕ → Media → Bool
is_stuck now m =
    not (is_ready m.processing_status || is_failed m.processing_status)
    && ltb m.created_at (now - 2 * 3600)

abbrev pub status_page : Services → ℕ → Db → System
status_page services now db =
    let failed = count (λ m. is_failed m.processing_status) db.media in
    let stale = count (is_stuck now) db.media in
    record {
      overall_ok =
          (services.database_ok && is_some services.queue_depth && services.storage_ok)
          && failed == 0
          && stale == 0;
      failed_media = failed;
      stale_processing = stale;
      processing_attention = count (λ m. not (is_ready m.processing_status)) db.media;
      archive_total = length db.archive_jobs;
      archive_failed = count (λ j. is_failed_job j.status) db.archive_jobs;
      archive_active =
          count (λ j. is_queued_job j.status || is_processing_job j.status) db.archive_jobs;
      media_count = length db.media;
      storage_total = sum_of every (λ m. m.size_bytes) db.media;
    }

unfoldable pub system : Settings → Services → Request → Db → Result System
system s services req db = do admin ← require_admin s req db; ok (status_page services req.now db)
