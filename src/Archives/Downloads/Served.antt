-- ===== src/Archives/Downloads/Served.antt =====
-- To whom, and when, an archive is handed out.
use markmonica.Base.{ℕ, true, false, ◌≡◌, some, arith}
use markmonica.Base.Tables.{find, find_passes}
use markmonica.Base.Texts.{Text, truthy, truthy-some}
use markmonica.Model.{Db, User, Event, ArchiveJob}
use markmonica.Http.{ok, or_raise, Request, redirect, Location}
use markmonica.Http.Post.{bind_ok, or_raise_ok, raise_if_ok}
use markmonica.Accounts.{Settings, require_user, event_for_owner}
use markmonica.Accounts.Owners.{Entitled, event_for_owner-Entitled}
use markmonica.Packages.{get_package}
use markmonica.Uploads.Enforcement.{require_feature}
use markmonica.Archives.{is_ready_job, archive_is_expired}
use markmonica.Archives.Downloads.{job_of, serve_job, archive_download}

-- What stands behind a link to an archive.
pub record Delivered (s : Settings) (req : Request) (db db' : Db) (event_id job_id : ℕ) (key : Text)
    : Type 0 where
  pub user : User
  pub event : Event
  pub entitled : Entitled s req db event_id user event
  pub included : (get_package db event.package_code).archive_downloads ≡ true
  pub job : ArchiveJob
  pub stored : find (job_of job_id event.id) db.archive_jobs ≡ some job
  pub own : job.event_id ≡ event_id
  pub ready : is_ready_job job.status ≡ true
  pub in_time : archive_is_expired s req.now job.completed_at ≡ false
  pub that_key : job.object_key ≡ some key
  pub unchanged : db' ≡ db

-- The tail of the handler.
serve_job_links :
    (s : Settings) (now : ℕ) (db db' : Db) (j : ArchiveJob) (key : Text)
    → serve_job s now db j ≡ ok (redirect (Location.presigned key), db')
    → (is_ready_job j.status ≡ true)
      × (archive_is_expired s now j.completed_at ≡ false)
      × (truthy j.object_key ≡ some key)
      × (db' ≡ db)
unfolding serve_job
serve_job_links s now db db' j key h = ground arith

-- A link to an archive is only ever given to a signed-in user who owns the event or is an
-- administrator, for an event whose package includes archive downloads, and for a stored job of
-- that event under the id asked for, which is ready, not past its retention, and has the linked
-- key; the request changes no row.
pub archive_download_guarded :
    (s : Settings) (req : Request) (db db' : Db) (event_id job_id : ℕ) (key : Text)
    → archive_download s req db event_id job_id ≡ ok (redirect (Location.presigned key), db')
    → Delivered s req db db' event_id job_id key
unfolding archive_download require_user
archive_download_guarded s req db db' event_id job_id key h =
    let (u, signed, h₁) = bind_ok (require_user s req db) _ h in
    let (e, found, h₂) = bind_ok (event_for_owner db u (some event_id)) _ h₁ in
    let (_, feature, h₃) =
      bind_ok (require_feature (get_package db e.package_code).archive_downloads) _ h₂ in
    let (j, stored, h₄) = bind_ok (or_raise (find (job_of job_id e.id) db.archive_jobs) 404) _ h₃ in
    let row = or_raise_ok (find (job_of job_id e.id) db.archive_jobs) 404 stored in
    let passes = find_passes (job_of job_id e.id) db.archive_jobs row in
    let who = event_for_owner-Entitled s req db event_id signed found in
    let (ready, in_time, that_key, unchanged) = serve_job_links s req.now db db' j key h₄ in
    record {
      user = u;
      event = e;
      entitled = who;
      included = ground (arith, raise_if_ok _ 403 feature);
      job = j;
      stored = row;
      own = ground (arith, passes, who.named);
      ready = ready;
      in_time = in_time;
      that_key = truthy-some j.object_key that_key;
      unchanged = unchanged;
    }
