-- ===== src/Tests/Archives.antt =====
-- Instances of the theorems on archives.
use markmonica.Base.{ℕ, Bool, true, false, Option, none, some, List, [], ◌∷◌, ◌≡◌, refl, ◌≤◌, arith}
use markmonica.Base.Tables.{find, count}
use markmonica.Base.Texts.{Text, text, lower, one_of}
use markmonica.Model.{Db, ArchiveJob, ArchiveStatus, MediaStatus, ProcessingStatus}
use markmonica.Http.{ok, redirect, Location}
use markmonica.Archives.{
  unique_name, ArchiveTools, is_ready_job, job_has_id, build_archive, cleanup_expired_archives,
}
use markmonica.Archives.Fresh.{unique_name_fresh}
use markmonica.Archives.Life.{Settled, build_archive_settles}
use markmonica.Archives.Sweep.{UniqueJobs, Swept, cleanup_sweeps}
use markmonica.Archives.Downloads.{archive_download}
use markmonica.Archives.Downloads.Served.{Delivered, archive_download_guarded}
use markmonica.Tests.Data.{settings, db_with, photo, party, request_of}

unique_name_fresh_example :
    (fresh : Text) × (unique_name (text "a/b.jpg") (text "b.jpg" ∷ text "b (2).jpg" ∷ [])
      ≡ some fresh)
    × (one_of (lower fresh) (text "b.jpg" ∷ text "b (2).jpg" ∷ []) ≡ false)
unique_name_fresh_example =
    unique_name_fresh (text "a/b.jpg") (text "b.jpg" ∷ text "b (2).jpg" ∷ [])

abbrev job_with : ArchiveStatus → Option Text → Option ℕ → ArchiveJob
job_with status key completed = record {
  id = 3;
  event_id = 7;
  requested_media_ids = none;
  status = status;
  object_key = key;
  filename = text "party-memories.zip";
  error = none;
  created_at = 10;
  completed_at = completed;
}

abbrev db_of : ArchiveJob → Db
db_of j = record (db_with [] (photo 4 MediaStatus.uploaded ProcessingStatus.ready ∷ [])) {
  archive_jobs = j ∷ [];
  events = record party { package_code = text "starter" } ∷ [];
}

abbrev pub tools : ArchiveTools
tools = record {
  download = λ key. none;
  write = λ name. none;
  upload = λ key. none;
  read_ids = λ t. none;
}

abbrev queued : ArchiveJob
queued = job_with ArchiveStatus.queued none none

queued_stored : find (job_has_id 3) (db_of queued).archive_jobs ≡ some queued
unfolding find
queued_stored = refl

build_archive_settles_example :
    Settled settings 100 (db_of queued) queued (build_archive settings tools 100 (db_of queued) 3)
build_archive_settles_example =
    build_archive_settles settings tools 100 (db_of queued) queued queued_stored refl

abbrev ready : ArchiveJob
ready = job_with ArchiveStatus.ready (some (text "z")) (some 20)

abbrev late : ℕ
late = 90000

one_job : UniqueJobs (db_of ready).archive_jobs
unfolding count
one_job id = ground arith

abbrev swept : Db
swept = db_of (job_with ArchiveStatus.expired none (some 20))

sweeps : cleanup_expired_archives settings (λ keys. true) late (db_of ready) ≡ ok (1, swept)
unfolding cleanup_expired_archives markmonica.Archives.delete_archives markmonica.Archives.jobs_over
    markmonica.Base.Updates.sort_by markmonica.Base.Tables.select markmonica.Storage.delete_objects
    markmonica.Storage.send_all markmonica.Storage.batches markmonica.Storage.distinct_keys one_of
    markmonica.Base.Updates.put_all markmonica.Archives.jobs_stranded markmonica.Base.Tables.put
sweeps = refl

cleanup_sweeps_example : Swept settings late 1 (db_of ready).archive_jobs swept.archive_jobs
cleanup_sweeps_example =
    cleanup_sweeps settings (λ keys. true) late 1 (db_of ready) swept one_job sweeps

downloads :
    archive_download settings (request_of (text "h")) (db_of ready) 7 3
    ≡ ok (redirect (Location.presigned (text "z")), db_of ready)
unfolding archive_download markmonica.Accounts.require_user markmonica.Accounts.current_user find
    markmonica.Base.Tables.any markmonica.Base.Texts.text_eq markmonica.Accounts.event_for_owner
    markmonica.Packages.get_package markmonica.Archives.Downloads.serve_job
    markmonica.Archives.archive_is_expired
downloads = refl

archive_download_guarded_example :
    Delivered settings (request_of (text "h")) (db_of ready) (db_of ready) 7 3 (text "z")
archive_download_guarded_example =
    archive_download_guarded settings (request_of (text "h")) (db_of ready) (db_of ready) 7 3
      (text "z") downloads
