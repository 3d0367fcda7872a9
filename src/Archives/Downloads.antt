-- ===== src/Archives/Downloads.antt =====
-- A host's requests on archives (app/main.py): `create_archive_job`, `archive_status` and
-- `archive_download`. The fresh id of a job and `json.dumps` are arguments.
pub mod Served
use markmonica.Base.{
  ℕ, ◌+◌, ◌-◌, Bool, true, false, not, ◌&&◌, ◌||◌, Option, none, some, List, [], ◌∷◌, ◌++◌, ◌==◌,
  if◌then◌else◌,
}
use markmonica.Base.Tables.{find, select, length}
use markmonica.Base.Texts.{Text, text, truthy, non_empty}
use markmonica.Model.{Db, Event, Media, ArchiveJob, ArchiveStatus}
use markmonica.Http.{
  Result, ok, err, http, ◌>>=◌, ◌>>◌, raise_if, or_raise, Request, Response, redirect, success,
  refusal, Location,
}
use markmonica.Accounts.{Settings, require_same_origin, require_user, event_for_owner}
use markmonica.Packages.{get_package}
use markmonica.Uploads.Enforcement.{require_feature}
use markmonica.Uploads.Handlers.{is_uploaded}
use markmonica.Archives.{
  id_in, is_ready_job, is_expired_job, archive_is_expired, archive_expires_at,
}

-- `list(dict.fromkeys(ids))`
unfoldable pub distinct_ids : List ℕ → List ℕ → List ℕ
distinct_ids seen [] = []
distinct_ids seen (k ∷ ks) =
    let rest = distinct_ids (k ∷ seen) ks in
    let skipped = distinct_ids seen ks in if id_in seen k then skipped else k ∷ rest

abbrev pub listed : List ℕ → Option (List ℕ)
listed [] = none
listed (k ∷ ks) = some (distinct_ids [] (k ∷ ks))

-- `if payload.media_ids`: the ids without duplicates, if there is one.
abbrev pub wanted : Option (List ℕ) → Option (List ℕ)
wanted none = none
wanted (some ks) = listed ks

abbrev pub offered : ℕ → List ℕ → Media → Bool
offered event_id ids m = m.event_id == event_id && is_uploaded m.status && id_in ids m.id

-- Each item that is named is an uploaded one of the event.
unfoldable pub check_wanted : Db → Event → Option (List ℕ) → Result (Unit {0})
check_wanted db e none = ok tt
check_wanted db e (some ids) =
    raise_if (not (length (select (offered e.id ids) db.media) == length ids)) 404

abbrev pub dumped : (List ℕ → Text) → Option (List ℕ) → Option Text
dumped dump_ids none = none
dumped dump_ids (some ids) = some (dump_ids ids)

abbrev pub new_job : (List ℕ → Text) → ℕ → ℕ → Event → Option (List ℕ) → ArchiveJob
new_job dump_ids now id e ids = record {
  id = id;
  event_id = e.id;
  requested_media_ids = dumped dump_ids ids;
  status = ArchiveStatus.queued;
  object_key = none;
  filename = e.slug ++ text "-memories.zip";
  error = none;
  created_at = now;
  completed_at = none;
}

unfoldable pub create_archive_job :
    Settings → (List ℕ → Text) → Request → Db → ℕ → Option (List ℕ) → ℕ → Result (Response × Db)
create_archive_job s dump_ids req db event_id media_ids id = do
  require_same_origin s req
  user ← require_user s req db
  e ← event_for_owner db user (some event_id)
  require_feature (get_package db e.package_code).archive_downloads
  check_wanted db e (wanted media_ids)
  let job = new_job dump_ids req.now id e (wanted media_ids)
  ok (success, record db { archive_jobs = db.archive_jobs ++ job ∷ [] })

abbrev pub job_of : ℕ → ℕ → ArchiveJob → Bool
job_of id event_id j = j.id == id && j.event_id == event_id

-- `job.status == "expired" or (job.status == "ready" and archive_is_expired(job.completed_at))`
abbrev pub has_expired : Settings → ℕ → ArchiveJob → Bool
has_expired s now j =
    is_expired_job j.status || (is_ready_job j.status && archive_is_expired s now j.completed_at)

-- The fields of the status that say whether the archive can be had.
pub record JobStatus : Type 0 where
  pub status : ArchiveStatus
  pub expires_in_seconds : ℕ
  pub has_download : Bool

abbrev pub seconds_left : ℕ → Option ℕ → ℕ
seconds_left now none = 0
seconds_left now (some at) = at - now

abbrev pub has_key : Option Text → Bool
has_key key = elim (truthy key) [ none ↦ false | some k ↦ true ]

abbrev pub status_of : Settings → ℕ → ArchiveJob → JobStatus
status_of s now j =
    let gone = has_expired s now j in
    let status = if gone then ArchiveStatus.expired else j.status in
    record {
      status = status;
      expires_in_seconds =
          if gone then 0 else seconds_left now (archive_expires_at s j.completed_at);
      has_download = is_ready_job status && has_key j.object_key;
    }

unfoldable pub archive_status : Settings → Request → Db → ℕ → ℕ → Result JobStatus
archive_status s req db event_id job_id = do
  user ← require_user s req db
  e ← event_for_owner db user (some event_id)
  j ← or_raise (find (job_of job_id e.id) db.archive_jobs) 404
  ok (status_of s req.now j)

-- The end of `archive_download`, on the job that it found.
unfoldable pub serve_job : Settings → ℕ → Db → ArchiveJob → Result (Response × Db)
serve_job s now db j =
    if has_expired s now j
    then ok (refusal 410, db)
    else if not (is_ready_job j.status)
    then err (http 409)
    else elim (truthy j.object_key) [
      | none ↦ err (http 409)
      | some key ↦ ok (redirect (Location.presigned key), db)
    ]

unfoldable pub archive_download : Settings → Request → Db → ℕ → ℕ → Result (Response × Db)
archive_download s req db event_id job_id = do
  user ← require_user s req db
  e ← event_for_owner db user (some event_id)
  require_feature (get_package db e.package_code).archive_downloads
  j ← or_raise (find (job_of job_id e.id) db.archive_jobs) 404
  serve_job s req.now db j
