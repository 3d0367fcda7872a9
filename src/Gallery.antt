-- ===== src/Gallery.antt =====
-- Who may see an upload (app/main.py): the guest's page, the previews, players and downloads of
-- guests and hosts, and `delete_media`. A link that the object store signs is a redirect to the
-- key it stands for.
pub mod Guests
pub mod Chosen
pub mod Keys
pub mod Deletion
use mathlib.Core.List.{reverse}
use markmonica.Base.{
  ℕ, ◌*◌, ◌/◌, min, Bool, true, false, not, ◌&&◌, ◌||◌, ◌==◌, Option, none, some, List, [], ◌∷◌,
  if◌then◌else◌,
}
use markmonica.Base.Tables.{find, select, any, length}
use markmonica.Base.Updates.{sort_by}
use markmonica.Base.Texts.{Text, text, truthy, non_empty, starts_with}
use markmonica.Model.{Db, Event, Media}
use markmonica.Http.{
  Result, ok, err, http, unhandled, Failure, ◌>>=◌, ◌>>◌, raise_if, or_raise, Request, Response,
  redirect, success, Location,
}
use markmonica.Accounts.{Settings, require_same_origin, require_user, event_for_owner}
use markmonica.Packages.{get_package}
use markmonica.Processing.{is_ready}
use markmonica.Storage.{delete_objects}
use markmonica.Uploads.Handlers.{has_slug, is_live, live_event_by_slug, is_uploaded}
use markmonica.Archives.{id_in}
use markmonica.Archives.Downloads.{distinct_ids}

unfoldable pub event_by_slug : Db → Text → Result Event
event_by_slug db slug = or_raise (find (has_slug slug) db.events) 404

-- `a or b`
abbrev pub or_key : Option Text → Option Text → Option Text
or_key a b = elim (truthy a) [ none ↦ b | some key ↦ some key ]

-- A redirect to the signed link of a key, 404 without one.
abbrev pub link : Db → Option Text → Result (Response × Db)
link db none = err (http 404)
link db (some key) = ok (redirect (Location.presigned key), db)

-- The rows that a host and a guest can ask for.
abbrev pub for_host : ℕ → ℕ → Media → Bool
for_host id event_id m = m.id == id && m.event_id == event_id && is_uploaded m.status

abbrev pub for_guest : ℕ → Media → Bool
for_guest event_id m =
    m.event_id == event_id && is_uploaded m.status && is_ready m.processing_status

abbrev pub guest_item : ℕ → ℕ → Media → Bool
guest_item id event_id m = m.id == id && for_guest event_id m

-- What the three handlers of a host have in common: the item of an event of theirs.
abbrev pub host_media : Settings → Request → Db → ℕ → ℕ → Result Media
host_media s req db event_id media_id = do
  user ← require_user s req db
  e ← event_for_owner db user (some event_id)
  or_raise (find (for_host media_id e.id) db.media) 404

abbrev pub host_preview_key : Media → Option Text
host_preview_key m = or_key (or_key m.preview_object_key m.poster_object_key) (some m.object_key)

unfoldable pub host_media_preview : Settings → Request → Db → ℕ → ℕ → Result (Response × Db)
host_media_preview s req db event_id media_id = do
  m ← host_media s req db event_id media_id
  link db (host_preview_key m)

unfoldable pub host_media_play : Settings → Request → Db → ℕ → ℕ → Result (Response × Db)
host_media_play s req db event_id media_id = do
  m ← host_media s req db event_id media_id
  link db (or_key m.processed_object_key (some m.object_key))

unfoldable pub host_media_download : Settings → Request → Db → ℕ → ℕ → Result (Response × Db)
host_media_download s req db event_id media_id = do
  m ← host_media s req db event_id media_id
  link db (some m.object_key)

-- `package.guest_gallery and event.guest_gallery_enabled`
abbrev pub gallery_open : Db → Event → Bool
gallery_open db e = (get_package db e.package_code).guest_gallery && e.guest_gallery_enabled

-- What the two handlers of a guest have in common: the live event with its gallery open.
unfoldable pub open_gallery : Db → Text → Result Event
open_gallery db slug = do
  e ← live_event_by_slug db slug
  raise_if (not (gallery_open db e)) 404
  ok e

-- `if not key and media.content_type.startswith("image/"): key = media.object_key`
abbrev pub original_of_image : Media → Option Text
original_of_image m =
    if starts_with m.content_type (text "image/") then non_empty m.object_key else none

abbrev pub guest_preview_key : Media → Option Text
guest_preview_key m = or_key (or_key m.preview_object_key m.poster_object_key) (original_of_image m)

unfoldable pub guest_media_preview : Db → Text → ℕ → Result (Response × Db)
guest_media_preview db slug media_id = do
  e ← open_gallery db slug
  m ← or_raise (find (guest_item media_id e.id) db.media) 404
  link db (guest_preview_key m)

abbrev pub guest_play_key : Media → Option Text
guest_play_key m =
    if starts_with m.content_type (text "video/") then truthy m.processed_object_key else none

unfoldable pub guest_media_play : Db → Text → ℕ → Result (Response × Db)
guest_media_play db slug media_id = do
  e ← open_gallery db slug
  m ← or_raise (find (guest_item media_id e.id) db.media) 404
  link db (guest_play_key m)

-- The page of an event: a notice before it is live, and then what it shows.
pub data GuestPage : Type 0 where
  event_pending : GuestPage
  guest_page : Bool → List Media → ℕ → GuestPage

-- `order_by(Media.created_at.desc())`
abbrev pub guest_media : Db → Event → List Media
guest_media db e =
    if gallery_open db e
    then reverse (sort_by (λ m. m.created_at) (select (for_guest e.id) db.media))
    else []

abbrev pub smaller : ℕ → Option ℕ → ℕ
smaller global none = global
smaller global (some limit) = min global limit

abbrev pub bytes_per_mb : ℕ
bytes_per_mb = 1048576

unfoldable pub guest_event : Settings → Db → Text → Result GuestPage
guest_event s db slug = do
  e ← event_by_slug db slug
  let max_video_bytes =
      smaller (s.max_video_upload_mb * bytes_per_mb) (get_package db e.package_code).max_video_bytes
  ok (
      if not (is_live e.status)
      then event_pending
      else guest_page (gallery_open db e) (guest_media db e) (max_video_bytes / bytes_per_mb))

-- `[item.object_key, item.preview_object_key, item.poster_object_key, item.processed_object_key]`
-- of each item; `delete_objects` skips what is empty.
unfoldable pub keys_of : List Media → List (Option Text)
keys_of [] = []
keys_of (m ∷ ms) =
    some m.object_key
    ∷ m.preview_object_key
    ∷ m.poster_object_key
    ∷ m.processed_object_key
    ∷ keys_of ms

abbrev pub chosen : ℕ → List ℕ → Media → Bool
chosen event_id ids m = m.event_id == event_id && id_in ids m.id

-- `db.delete(item)` for each item
abbrev pub one_of_items : List Media → Media → Bool
one_of_items items m = any (λ item. item.id == m.id) items

abbrev pub without : List Media → Db → Db
without items db = record db { media = select (λ m. not (one_of_items items m)) db.media }

-- An exception of the object store becomes the answer 502.
abbrev pub or_502 : Result (Unit {0}) → Result (Unit {0})
or_502 (ok u) = ok u
or_502 (err e) = err (http 502)

abbrev none_chosen : List ℕ → Bool
none_chosen [] = true
none_chosen (k ∷ ks) = false

unfoldable pub delete_media :
    Settings → (List Text → Bool) → Request → Db → ℕ → List ℕ → Result (Response × Db)
delete_media s request req db event_id media_ids = do
  require_same_origin s req
  user ← require_user s req db
  e ← event_for_owner db user (some event_id)
  let ids = distinct_ids [] media_ids
  raise_if (none_chosen ids) 400
  let items = select (chosen e.id ids) db.media
  raise_if (not (length items == length ids)) 404
  or_502 (delete_objects request (keys_of items))
  ok (success, without items db)
