-- ===== src/Uploads/Enforcement.antt =====
-- Package limits (app/services/package_enforcement.py) and the test of a file (`validate_upload`,
-- `validate_cover` in app/main.py). The percentages of usage, which only a page shows, are left out.
-- One event's reservations are serialized by a lock, so each handler runs on the rows as they are.
use markmonica.Base.{
  ℕ, ◌+◌, ◌*◌, Bool, true, false, not, ◌&&◌, Option, none, some, List, [], ◌∷◌, ltb, leb, ◌==◌,
  if◌then◌else◌,
}
use markmonica.Base.Int.{ℤ, is_nonpositive, pos_part}
use markmonica.Base.Tables.{count, sum_of}
use markmonica.Base.Texts.{Text, text, starts_with, one_of}
use markmonica.Model.{Db, Event, Media, MediaStatus}
use markmonica.Http.{Result, err, http, ◌>>◌, raise_if}
use markmonica.Accounts.{Settings}
use markmonica.Packages.{get_package}

pub record EventPackageUsage : Type 0 where
  pub media_count : ℕ
  pub storage_bytes : ℕ

-- `Media.status.in_(("pending", "uploaded"))`
abbrev pub reserves : MediaStatus → Bool
reserves MediaStatus.pending = true
reserves MediaStatus.uploaded = true
reserves _ = false

abbrev pub counted_for : ℕ → Media → Bool
counted_for event_id m = m.event_id == event_id && reserves m.status

abbrev pub size_of : Media → ℕ
size_of m = m.size_bytes

unfoldable pub event_package_usage : Db → Event → EventPackageUsage
event_package_usage db e = record {
  media_count = count (counted_for e.id) db.media;
  storage_bytes = sum_of (counted_for e.id) size_of db.media;
}

-- `require_feature`, on the value of the attribute
abbrev pub require_feature : Bool → Result (Unit {0})
require_feature included = raise_if (not included) 403

-- `limit is not None and limit < n`, `limit is not None and limit <= n`
abbrev pub above : ℕ → Option ℕ → Bool
above n none = false
above n (some limit) = ltb limit n

abbrev pub reached : ℕ → Option ℕ → Bool
reached n none = false
reached n (some limit) = leb limit n

unfoldable pub enforce_upload_entitlement : Db → Event → Text → ℕ → Result (Unit {0})
enforce_upload_entitlement db e content_type size_bytes = do
  let p = get_package db e.package_code
  let usage = event_package_usage db e
  raise_if (starts_with content_type (text "video/") && above size_bytes p.max_video_bytes) 413
  raise_if (reached usage.media_count p.max_media_per_event) 409
  raise_if (above (usage.storage_bytes + size_bytes) p.max_storage_bytes_per_event) 409

abbrev pub allowed_image_types : List Text
allowed_image_types =
    text "image/jpeg"
    ∷ text "image/png"
    ∷ text "image/webp"
    ∷ text "image/gif"
    ∷ text "image/heic"
    ∷ text "image/heif"
    ∷ []

abbrev pub allowed_video_types : List Text
allowed_video_types =
    text "video/mp4" ∷ text "video/quicktime" ∷ text "video/x-m4v" ∷ text "video/webm" ∷ []

abbrev pub allowed_cover_types : List Text
allowed_cover_types = text "image/jpeg" ∷ text "image/png" ∷ text "image/webp" ∷ []

abbrev pub max_cover_bytes : ℕ
max_cover_bytes = 15 * 1024 * 1024

-- The limit on a file of this type, if the type is allowed.
unfoldable pub type_limit : Settings → Text → Option ℕ
type_limit s content_type =
    if one_of content_type allowed_image_types
    then some (s.max_image_upload_mb * 1024 * 1024)
    else if one_of content_type allowed_video_types
    then some (s.max_video_upload_mb * 1024 * 1024)
    else none

abbrev within_limit : Option ℕ → ℕ → Result (Unit {0})
within_limit none size = err (http 415)
within_limit (some limit) size = raise_if (ltb limit size) 413

unfoldable pub validate_upload : Settings → Text → ℤ → Result (Unit {0})
validate_upload s content_type size_bytes = do
  raise_if (is_nonpositive size_bytes) 400
  within_limit (type_limit s content_type) (pos_part size_bytes)

unfoldable pub validate_cover : Text → ℤ → Result (Unit {0})
validate_cover content_type size_bytes = do
  raise_if (not (one_of content_type allowed_cover_types)) 415
  raise_if (is_nonpositive size_bytes) 400
  raise_if (ltb max_cover_bytes (pos_part size_bytes)) 413
