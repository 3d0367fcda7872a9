-- ===== src/Covers.antt =====
-- The cover photo of an event (app/main.py): `initiate_cover`, `confirm_cover`, `remove_cover`,
-- `host_cover` and `guest_cover`. The random name of a new object and the answers of the object
-- store are arguments.
pub mod Confirmed
pub mod Guarded
use markmonica.Base.{
  ℕ, Bool, true, false, not, ◌&&◌, ◌==◌, Option, none, some, List, [], ◌∷◌, ◌++◌, if◌then◌else◌,
}
use markmonica.Base.Int.{ℤ, pos_part}
use markmonica.Base.Texts.{Text, text, text_eq, truthy, lower, strip, starts_with, is_empty}
use markmonica.Model.{Db, Event}
use markmonica.Http.{
  Result, ok, err, http, unhandled, ◌>>=◌, ◌>>◌, raise_if, Request, Response, success,
}
use markmonica.Accounts.{Settings, require_same_origin, require_user, event_for_owner}
use markmonica.Packages.{get_package}
use markmonica.Orders.{save_event}
use markmonica.Storage.{delete_objects}
use markmonica.Uploads.Enforcement.{require_feature, validate_cover}
use markmonica.Uploads.Handlers.{Head, object, client_error, other_error}
use markmonica.Gallery.{link, or_502, event_by_slug}

-- `CoverUploadRequest`, less the file name, which the handler does not read, and
-- `CoverConfirmRequest`, less the key.
pub record CoverRequest : Type 0 where
  pub content_type : Text
  pub size_bytes : ℤ

abbrev pub cover_type : CoverRequest → Text
cover_type r = strip (lower r.content_type)

-- `f"events/{event.id}/cover/"`
unfoldable pub cover_prefix : Settings → Event → Text
cover_prefix s e = text "events/" ++ s.str_uuid e.id ++ text "/cover/"

-- The dictionary of extensions, for a type that `validate_cover` lets through.
abbrev pub extension : Text → Text
extension t =
    if text_eq t (text "image/jpeg")
    then text "jpg"
    else if text_eq t (text "image/png")
    then text "png"
    else text "webp"

-- What the two handlers check first: the event, whose package includes a cover.
unfoldable pub cover_event : Settings → Request → Db → ℕ → CoverRequest → Result Event
cover_event s req db event_id r = do
  require_same_origin s req
  user ← require_user s req db
  e ← event_for_owner db user (some event_id)
  require_feature (get_package db e.package_code).custom_event_design
  validate_cover (cover_type r) r.size_bytes
  ok e

-- The key that the browser uploads to, for which the answer has a signed link.
unfoldable pub initiate_cover : Settings → Text → Request → Db → ℕ → CoverRequest → Result Text
initiate_cover s token req db event_id r = do
  e ← cover_event s req db event_id r
  ok (cover_prefix s e ++ (token ++ text "." ++ extension (cover_type r)))

-- The object is there with the announced length, and with the announced type if it has one.
unfoldable pub verify_cover : Head → CoverRequest → Result (Unit {0})
verify_cover (client_error code status) r = err (http 409)
verify_cover other_error r = err unhandled
verify_cover (object length type) r = do
  raise_if (not (length == pos_part r.size_bytes)) 409
  raise_if (not (is_empty (lower type)) && not (text_eq (lower type) (cover_type r))) 409

abbrev pub with_cover : Text → Text → Event → Event
with_cover key content_type e = record e {
  cover_object_key = some key;
  cover_content_type = some content_type;
}

-- `previous and previous != payload.object_key`: the key that the store is then asked to delete,
-- whatever it answers.
abbrev pub replaced : Option Text → Text → Option Text
replaced none key = none
replaced (some previous) key = if text_eq previous key then none else some previous

unfoldable pub confirm_cover :
    Settings
    → (Text → Head)
    → Request
    → Db
    → ℕ
    → Text
    → CoverRequest
    → Result ((Response × Db) × Option Text)
confirm_cover s head req db event_id key r = do
  e ← cover_event s req db event_id r
  raise_if (not (starts_with key (cover_prefix s e))) 400
  verify_cover (head key) r
  ok (
    (success, save_event (with_cover key (cover_type r) e) db),
    replaced (truthy e.cover_object_key) key,
  )

abbrev pub without_cover : Event → Event
without_cover e = record e { cover_object_key = none; cover_content_type = none }

abbrev remove_object : (List Text → Bool) → Option Text → Result (Unit {0})
remove_object request none = ok tt
remove_object request (some key) = or_502 (delete_objects request (some key ∷ []))

unfoldable pub remove_cover :
    Settings → (List Text → Bool) → Request → Db → ℕ → Result (Response × Db)
remove_cover s request req db event_id = do
  require_same_origin s req
  user ← require_user s req db
  e ← event_for_owner db user (some event_id)
  remove_object request (truthy e.cover_object_key)
  ok (success, save_event (without_cover e) db)

unfoldable pub host_cover : Settings → Request → Db → ℕ → Result (Response × Db)
host_cover s req db event_id = do
  user ← require_user s req db
  e ← event_for_owner db user (some event_id)
  link db (truthy e.cover_object_key)

unfoldable pub guest_cover : Db → Text → Result (Response × Db)
guest_cover db slug = do e ← event_by_slug db slug; link db (truthy e.cover_object_key)
