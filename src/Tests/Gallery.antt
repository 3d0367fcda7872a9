-- ===== src/Tests/Gallery.antt =====
-- Instances of the theorems on what guests see, deletions and covers.
use markmonica.Base.{
  ℕ, Bool, true, false, Option, none, some, List, [], ◌∷◌, ◌++◌, ◌≡◌, refl, ◌≤◌, arith,
}
use markmonica.Base.Int.{pos}
use markmonica.Base.Tables.{count}
use markmonica.Base.Texts.{Text, text, lower}
use markmonica.Model.{Db, Event, PackageConfig, MediaStatus, ProcessingStatus}
use markmonica.Http.{ok, success, redirect, Location}
use markmonica.Uploads.Handlers.{Head, object}
use markmonica.Gallery.{guest_media_preview, delete_media}
use markmonica.Archives.Downloads.{distinct_ids}
use markmonica.Gallery.Guests.{ShownToGuest, PreviewKey, guest_preview_guarded}
use markmonica.Gallery.Deletion.{UniqueMedia, Deleted, delete_media_exact}
use markmonica.Covers.{
  CoverRequest, cover_type, initiate_cover, confirm_cover, host_cover, with_cover,
}
use markmonica.Covers.Confirmed.{cover_round_trip}
use markmonica.Covers.Guarded.{Confirmed, confirm_cover_guarded}
use markmonica.Tests.Data.{settings, db_with, photo, party, starter_config, request_of}

-- The sample event, with its gallery shown.
abbrev open_party : Event
open_party = record party { guest_gallery_enabled = true; package_code = text "starter" }

abbrev gallery_package : PackageConfig
gallery_package = record starter_config { guest_gallery = true }

abbrev shown : Db
shown = record (db_with [] (photo 4 MediaStatus.uploaded ProcessingStatus.ready ∷ [])) {
  events = open_party ∷ [];
  package_configs = gallery_package ∷ [];
}

abbrev original : Text
original = text "events/7/originals/a-b.jpg"

previews :
    guest_media_preview shown (text "party") 4 ≡ ok (redirect (Location.presigned original), shown)
unfolding guest_media_preview markmonica.Gallery.open_gallery
    markmonica.Uploads.Handlers.live_event_by_slug markmonica.Base.Tables.find
    markmonica.Base.Texts.text_eq markmonica.Packages.get_package markmonica.Base.Texts.starts_with
previews = refl

guest_preview_guarded_example : ShownToGuest PreviewKey shown shown (text "party") 4 original
guest_preview_guarded_example = guest_preview_guarded shown shown (text "party") 4 original previews

one_item : UniqueMedia shown.media
unfolding count
one_item id = ground arith

abbrev emptied : Db
emptied = record shown { media = [] }

deletes :
    delete_media settings (λ keys. true) (request_of (text "h")) shown 7 (4 ∷ 4 ∷ [])
    ≡ ok (success, emptied)
unfolding delete_media markmonica.Accounts.require_same_origin markmonica.Accounts.require_user
    markmonica.Accounts.current_user markmonica.Base.Tables.find markmonica.Base.Tables.any
    markmonica.Base.Texts.text_eq markmonica.Accounts.event_for_owner distinct_ids
    markmonica.Archives.id_in markmonica.Base.Tables.select markmonica.Storage.delete_objects
    markmonica.Storage.send_all markmonica.Storage.batches markmonica.Storage.distinct_keys
    markmonica.Gallery.keys_of markmonica.Base.Texts.one_of
deletes = refl

delete_media_exact_example :
    Deleted settings (λ keys. true) (request_of (text "h")) shown emptied 7 (4 ∷ 4 ∷ [])
delete_media_exact_example =
    delete_media_exact settings (λ keys. true) (request_of (text "h")) shown emptied 7 (4 ∷ 4 ∷ [])
      success one_item deletes

abbrev jpeg : CoverRequest
jpeg = record { content_type = text "image/jpeg"; size_bytes = pos 40 }

abbrev uuid_seven : Text
uuid_seven = settings.str_uuid 7

abbrev cover_key : Text
cover_key = text "events/" ++ uuid_seven ++ text "/cover/t.jpg"

abbrev there : Text → Head
there key = object 40 (text "image/JPEG")

begun : initiate_cover settings (text "t") (request_of (text "h")) shown 7 jpeg ≡ ok cover_key
unfolding initiate_cover markmonica.Covers.cover_event markmonica.Accounts.require_same_origin
    markmonica.Accounts.require_user markmonica.Accounts.current_user markmonica.Base.Tables.find
    markmonica.Base.Tables.any markmonica.Base.Texts.text_eq markmonica.Accounts.event_for_owner
    markmonica.Packages.get_package markmonica.Uploads.Enforcement.validate_cover
    markmonica.Base.Texts.one_of markmonica.Base.Texts.strip lower markmonica.Covers.cover_prefix
begun = refl

same_type : lower (text "image/JPEG") ≡ cover_type jpeg
unfolding lower markmonica.Base.Texts.strip
same_type = refl

cover_round_trip_example :
    (db' : Db) × (previous : Option Text) × (confirm_cover settings there
        (request_of (text "h"))
        shown
        7
        cover_key
        jpeg
      ≡ ok ((success, db'), previous))
    × (host_cover settings (request_of (text "h")) db' 7
        ≡ ok (redirect (Location.presigned cover_key), db'))
cover_round_trip_example =
    cover_round_trip settings (text "t") there (request_of (text "h")) shown 7 jpeg cover_key
      (text "image/JPEG") begun refl same_type

abbrev covered : Db
covered = record shown { events = with_cover cover_key (text "image/jpeg") open_party ∷ [] }

confirms :
    confirm_cover settings there (request_of (text "h")) shown 7 cover_key jpeg
    ≡ ok ((success, covered), none)
unfolding confirm_cover markmonica.Covers.cover_event markmonica.Accounts.require_same_origin
    markmonica.Accounts.require_user markmonica.Accounts.current_user markmonica.Base.Tables.find
    markmonica.Base.Tables.any markmonica.Base.Texts.text_eq markmonica.Accounts.event_for_owner
    markmonica.Packages.get_package markmonica.Uploads.Enforcement.validate_cover
    markmonica.Base.Texts.one_of markmonica.Base.Texts.strip lower markmonica.Base.Texts.starts_with
    markmonica.Covers.cover_prefix markmonica.Covers.verify_cover markmonica.Base.Tables.put
    markmonica.Accounts.user_from_session_token markmonica.Base.Texts.lower_char
    markmonica.Base.Texts.lstrip markmonica.Base.Texts.rstrip_slash
    markmonica.Packages.fallback_code markmonica.Packages.package_config
confirms = refl

confirm_cover_guarded_example :
    Confirmed settings there (request_of (text "h")) shown covered 7 cover_key jpeg none
confirm_cover_guarded_example =
    confirm_cover_guarded settings there (request_of (text "h")) shown covered 7 cover_key jpeg
      success none confirms
