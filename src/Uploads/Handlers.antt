-- ===== src/Uploads/Handlers.antt =====
-- `initiate_upload` and `confirm_upload` (app/main.py), with the object store's
-- answer to a HEAD request and Redis's to an increment as arguments. The job that a confirmation
-- enqueues is best effort, and no part of the result.
use markmonica.Base.{
  ℕ, Bool, true, false, not, ◌&&◌, ◌||◌, Option, none, some, [], ◌∷◌, ◌++◌, ltb, ◌==◌,
  if◌then◌else◌,
}
use markmonica.Base.Int.{ℤ, pos_part}
use markmonica.Base.Tables.{find, put, any}
use markmonica.Base.Texts.{Text, text, text_eq, lower, strip, take, non_empty, is_empty}
use markmonica.Model.{Db, Event, EventStatus, Media, MediaStatus, ProcessingStatus}
use markmonica.Http.{
  Result, ok, err, http, unhandled, ◌>>=◌, ◌>>◌, raise_if, or_raise, Response, success,
}
use markmonica.Accounts.{Settings}
use markmonica.Names.{safe_filename}
use markmonica.Uploads.Enforcement.{validate_upload, enforce_upload_entitlement}

-- What `head_object` gives: the length and the type of the object (0 and the empty text where the
-- response has none), a `ClientError` with its code and HTTP status, or another exception.
pub data Head : Type 0 where
  object : ℕ → Text → Head
  client_error : Text → Option ℕ → Head
  other_error : Head

-- `enforce_guest_upload_rate_limit`: Redis's count, `none` where it raises.
unfoldable pub enforce_guest_upload_rate_limit : ℕ → Option ℕ → Result (Unit {0})
enforce_guest_upload_rate_limit limit none = ok tt
enforce_guest_upload_rate_limit limit (some n) = raise_if (ltb 0 limit && ltb limit n) 429

abbrev pub has_slug : Text → Event → Bool
has_slug slug e = text_eq e.slug slug

abbrev pub is_live : EventStatus → Bool
is_live EventStatus.live = true
is_live EventStatus.draft = false

-- `live_event_by_slug`
unfoldable pub live_event_by_slug : Db → Text → Result Event
live_event_by_slug db slug = do
  e ← or_raise (find (has_slug slug) db.events) 404
  raise_if (not (is_live e.status)) 403
  ok e

pub record UploadRequest : Type 0 where
  pub filename : Text
  pub content_type : Text
  pub size_bytes : ℤ
  pub guest_name : Option Text

abbrev guest : Option Text → Text
guest none = []
guest (some t) = t

-- The row of a new upload: its id and the random token of its key are arguments.
unfoldable pub new_media : Settings → ℕ → ℕ → Text → Event → Text → UploadRequest → Media
new_media s now id token e content_type r =
    let filename = safe_filename r.filename in
    record {
      id = id;
      event_id = e.id;
      object_key =
          text "events/" ++ s.str_uuid e.id ++ text "/originals/" ++ token ++ text "-" ++ filename;
      original_filename = filename;
      content_type = content_type;
      size_bytes = pos_part r.size_bytes;
      uploader_name = non_empty (take 160 (strip (guest r.guest_name)));
      caption = none;
      status = MediaStatus.pending;
      processing_status = ProcessingStatus.pending;
      preview_object_key = none;
      poster_object_key = none;
      processed_object_key = none;
      processed_content_type = none;
      processing_error = none;
      created_at = now;
    }

abbrev pub media_taken : Media → Media → Bool
media_taken m x = x.id == m.id || text_eq x.object_key m.object_key

-- The insert: the primary key and the unique object key refuse a duplicate.
unfoldable pub add_media : Media → Db → Result Db
add_media m db =
    if any (media_taken m) db.media
    then err unhandled
    else ok (record db { media = db.media ++ m ∷ [] })

unfoldable pub initiate_upload :
    Settings → ℕ → Option ℕ → ℕ → ℕ → Text → Db → Text → UploadRequest → Result (Response × Db)
initiate_upload s rate_limit hits now id token db slug r = do
  enforce_guest_upload_rate_limit rate_limit hits
  e ← live_event_by_slug db slug
  let content_type = strip (lower r.content_type)
  validate_upload s content_type r.size_bytes
  enforce_upload_entitlement db e content_type (pos_part r.size_bytes)
  db' ← add_media (new_media s now id token e content_type r) db
  ok (success, db')

abbrev pub media_has_id : ℕ → Media → Bool
media_has_id id m = m.id == id

abbrev pub media_of : ℕ → ℕ → Media → Bool
media_of id event_id m = m.id == id && m.event_id == event_id

abbrev pub save_media : Media → Db → Db
save_media m db = record db { media = put (media_has_id m.id) m db.media }

abbrev pub is_uploaded : MediaStatus → Bool
is_uploaded MediaStatus.uploaded = true
is_uploaded _ = false

-- The object is there with the announced length, and with the announced type if it has one.
unfoldable pub verify_object : Head → Media → Result (Unit {0})
verify_object (client_error code status) m = err (http 409)
verify_object other_error m = err unhandled
verify_object (object length type) m = do
  raise_if (not (length == m.size_bytes)) 409
  raise_if (not (is_empty (lower type)) && not (text_eq (lower type) (lower m.content_type))) 409

abbrev pub confirmed_media : Media → Media
confirmed_media m = record m {
  status = MediaStatus.uploaded;
  processing_status = ProcessingStatus.pending;
}

-- The end of `confirm_upload`, on the row that it found.
unfoldable pub confirm_media : (Text → Head) → Db → Media → Result (Response × Db)
confirm_media head db m =
    if is_uploaded m.status
    then ok (success, db)
    else (do verify_object (head m.object_key) m; ok (success, save_media (confirmed_media m) db))

unfoldable pub confirm_upload : (Text → Head) → Db → Text → ℕ → Result (Response × Db)
confirm_upload head db slug media_id = do
  e ← live_event_by_slug db slug
  m ← or_raise (find (media_of media_id e.id) db.media) 404
  confirm_media head db m
