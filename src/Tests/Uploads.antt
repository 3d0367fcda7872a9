-- ===== src/Tests/Uploads.antt =====
-- Instances of the theorems on uploads, their cleanup, their processing and their deletion.
use markmonica.Base.{
  ℕ, Bool, true, false, Option, none, some, List, [], ◌∷◌, ◌≡◌, ◌≢◌, ◌&&◌, refl, ap, ◌+◌, ◌-◌, ◌++◌,
  ◌≤◌, inl, inr, arith,
}
use markmonica.Base.Tables.{count, find, length}
use markmonica.Base.Membership.{In, find-In}
use markmonica.Base.Int.{pos}
use markmonica.Base.Texts.{Text, text}
use markmonica.Model.{Db, Event, Media, MediaStatus, ProcessingStatus}
use markmonica.Http.{success, ok, after}
use markmonica.Uploads.Enforcement.{event_package_usage, reserves}
use markmonica.Uploads.Handlers.{
  Head, object, client_error, UploadRequest, live_event_by_slug, media_has_id, media_of,
  initiate_upload, confirm_upload,
}
use markmonica.Uploads.Quota.{IsWithinPackage, initiate_upload_quota}
use markmonica.Uploads.Confirm.{confirm_upload_idempotent, confirm_upload_usage}
use markmonica.Uploads.Verified.{UploadConfirmed, confirm_upload_verifies}
use markmonica.Uploads.Cleanup.{no_stats, cleanup_rows, is_stale}
use markmonica.Uploads.Sweep.{
  IsBalanced, Kept, cleanup_rows_stats, cleanup_keeps, cleanup_rows_usage, rows_of, bytes_of,
}
use markmonica.Processing.{
  Tools, done, derive, run_pending_media, awaits_work, is_interrupted, uses_legacy_derivative_keys,
}
use markmonica.Processing.Progress.{UniqueMedia, run_pending_media-drains}
use markmonica.Processing.Keys.{derive-not_legacy}
use markmonica.Storage.{delete_objects, distinct_keys, batch}
use markmonica.Storage.Sent.{Sent, delete_objects_sends}
use markmonica.Tests.Data.{settings, db_with, photo, party}

abbrev new_photo : Media
new_photo = photo 3 MediaStatus.pending ProcessingStatus.pending

abbrev empty : Db
empty = db_with [] []

abbrev waiting : Db
waiting = db_with [] (new_photo ∷ [])

abbrev picture : UploadRequest
picture = record {
  filename = text "b.jpg";
  content_type = text "image/jpeg";
  size_bytes = pos 40;
  guest_name = none;
}

abbrev uploaded_to : Db
uploaded_to =
    after empty (initiate_upload settings 10 (some 1) 100 3 (text "t") empty (text "party") picture)

initiated :
    initiate_upload settings 10 (some 1) 100 3 (text "t") empty (text "party") picture
    ≡ ok (success, uploaded_to)
unfolding initiate_upload markmonica.Uploads.Handlers.enforce_guest_upload_rate_limit
    live_event_by_slug find markmonica.Base.Texts.text_eq
    markmonica.Uploads.Enforcement.validate_upload markmonica.Uploads.Enforcement.type_limit
    markmonica.Base.Texts.one_of markmonica.Base.Texts.strip markmonica.Base.Texts.lower
    markmonica.Uploads.Enforcement.enforce_upload_entitlement markmonica.Base.Texts.starts_with
    markmonica.Packages.get_package event_package_usage count markmonica.Base.Tables.sum_of
    markmonica.Uploads.Handlers.add_media markmonica.Base.Tables.any
    markmonica.Base.Texts.lower_char markmonica.Base.Texts.lstrip markmonica.Names.lstrip_chars
    markmonica.Names.path_name markmonica.Names.safe_filename markmonica.Names.squash
    markmonica.Names.strip_chars markmonica.Packages.fallback_code
    markmonica.Packages.package_config markmonica.Uploads.Handlers.new_media
initiated = refl

initiate_upload_quota_example :
    (e : Event) × (live_event_by_slug empty (text "party") ≡ ok e)
    × IsWithinPackage uploaded_to e
    × ((event_package_usage uploaded_to e).media_count
        ≡ (event_package_usage empty e).media_count + 1)
    × ((event_package_usage uploaded_to e).storage_bytes
        ≡ (event_package_usage empty e).storage_bytes + 40)
    × (1 ≤ 40)
initiate_upload_quota_example =
    initiate_upload_quota settings 10 (some 1) 100 3 (text "t") empty (text "party") picture
      initiated

-- The store has the photo.
abbrev there : Text → Head
there key = object 40 (text "image/jpeg")

abbrev confirmed : Db
confirmed = after waiting (confirm_upload there waiting (text "party") 3)

confirms : confirm_upload there waiting (text "party") 3 ≡ ok (success, confirmed)
unfolding confirm_upload live_event_by_slug find markmonica.Base.Texts.text_eq
    markmonica.Uploads.Handlers.confirm_media markmonica.Uploads.Handlers.verify_object
    markmonica.Base.Texts.lower
confirms = refl

one_photo : (id : ℕ) → count (media_has_id id) (new_photo ∷ []) ≤ 1
unfolding count
one_photo id = ground arith

confirm_upload_verifies_example : UploadConfirmed there waiting confirmed (text "party") 3
confirm_upload_verifies_example =
    confirm_upload_verifies there waiting (text "party") 3 (one_photo 3) confirms

-- The repeated confirmation does not ask the store, which has lost the object.
abbrev lost : Text → Head
lost key = client_error (text "404") (some 404)

confirm_upload_idempotent_example :
    confirm_upload lost confirmed (text "party") 3 ≡ ok (success, confirmed)
confirm_upload_idempotent_example =
    confirm_upload_idempotent there lost waiting (text "party") 3 (one_photo 3) confirms

pending_photo :
    (m : Media)
    → find (media_has_id m.id) waiting.media ≡ some m
    → m.id ≡ 3
    → reserves m.status ≡ true
pending_photo m h e = elim (find-In (media_has_id m.id) waiting.media h) [
  | inl same ↦ ap (λ x. reserves x.status) same
  | inr other ↦ absurd other
]

confirm_upload_usage_example :
    event_package_usage confirmed party ≡ event_package_usage waiting party
confirm_upload_usage_example =
    confirm_upload_usage there waiting (text "party") 3 party (one_photo 3) pending_photo confirms

cleanup_rows_stats_example :
    let (rows, s) = cleanup_rows lost 50 no_stats waiting.media in
    IsBalanced s
    × (s.checked ≡ 0 + count (is_stale 50) waiting.media)
    × (length rows + s.removed ≡ length waiting.media + 0)
cleanup_rows_stats_example = cleanup_rows_stats lost 50 no_stats waiting.media refl

cleanup_keeps_example : Kept new_photo (cleanup_rows there 50 no_stats waiting.media).0
cleanup_keeps_example = cleanup_keeps there 50 no_stats waiting.media new_photo (inl refl) refl

none_uploading : (m : Media) → In m waiting.media → m.status ≢ MediaStatus.uploading
none_uploading m (inl e) h = ground arith
none_uploading m (inr e) h = absurd e

cleanup_rows_usage_example :
    (rows_of 7 (cleanup_rows lost 50 no_stats waiting.media).0 ≤ rows_of 7 waiting.media)
    × (bytes_of 7 (cleanup_rows lost 50 no_stats waiting.media).0 ≤ bytes_of 7 waiting.media)
cleanup_rows_usage_example = cleanup_rows_usage 7 lost 50 no_stats waiting.media none_uploading

-- Tools of which all work.
abbrev tools : Tools
tools = record {
  download = λ key. none;
  thumbnail = λ key. none;
  transcode = λ key. none;
  poster = λ key. none;
  upload = λ key type. none;
}

abbrev queued : Db
queued = db_with [] (photo 3 MediaStatus.uploaded ProcessingStatus.pending ∷ [])

one_queued : UniqueMedia queued.media
unfolding count
one_queued id = ground arith

run_pending_media-drains_example :
    let db' = run_pending_media settings.str_uuid tools 3 queued in
    (count awaits_work db'.media ≡ count awaits_work queued.media - 3)
    × (count is_interrupted db'.media ≡ count is_interrupted queued.media)
run_pending_media-drains_example =
    run_pending_media-drains settings.str_uuid tools 3 queued one_queued

-- A photo that was processed to the key that all photos of its event shared.
abbrev shared : Media
shared = record (photo 3 MediaStatus.uploaded ProcessingStatus.processing) {
  preview_object_key = some (text "events/7/originals/derivatives/preview.webp");
}

abbrev repaired : Media
repaired = record shared {
  preview_object_key = some (text "events/7/originals/derivatives/" ++ 3 ∷ text "/preview.webp");
  processed_content_type = some (text "image/webp");
}

repairs : derive settings.str_uuid tools shared ≡ done repaired
unfolding derive markmonica.Base.Texts.starts_with markmonica.Processing.process_image
    markmonica.Processing.derivative_key markmonica.Processing.parent_of
repairs = refl

derive-not_legacy_example : uses_legacy_derivative_keys settings.str_uuid repaired ≡ false
unfolding markmonica.Base.Texts.starts_with
derive-not_legacy_example = derive-not_legacy settings.str_uuid tools shared repairs (refl, refl)

abbrev keys : List (Option Text)
keys = some (text "a") ∷ none ∷ some (text "b") ∷ some (text "a") ∷ []

deletes : delete_objects (λ b. true) keys ≡ ok tt
unfolding delete_objects markmonica.Storage.send_all markmonica.Storage.batches distinct_keys
    markmonica.Base.Texts.one_of markmonica.Base.Texts.text_eq
deletes = refl

delete_objects_sends_example : Sent (λ b. true) keys
delete_objects_sends_example = delete_objects_sends (λ b. true) keys deletes
