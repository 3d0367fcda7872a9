-- ===== src/Gallery/Guests.antt =====
-- What a guest gets to see.
use markmonica.Base.{
  not-not, none-some, ℕ, Bool, true, not, ◌&&◌, ◌≡◌, sym, ap, ◌∙◌, ◌⊎◌, inl, inr, Option, none,
  some, [], ◌∷◌, arith, Bool-cases,
}
use markmonica.Base.Tables.{find, find_passes}
use markmonica.Base.Membership.{In, find-In}
use markmonica.Base.Texts.{Text, text, text_eq_iff, non_empty, truthy-some, starts_with}
use markmonica.Model.{Db, Event, EventStatus, Media, MediaStatus, ProcessingStatus}
use markmonica.Http.{ok, ◌>>=◌, or_raise, raise_if, redirect, Location}
use markmonica.Http.Post.{ok_inj, bind_ok, or_raise_ok, raise_if_ok}
use markmonica.Packages.{get_package}
use markmonica.Processing.{is_ready}
use markmonica.Uploads.Handlers.{has_slug, is_live, live_event_by_slug, is_uploaded}
use markmonica.Gallery.{
  link, or_key, gallery_open, guest_item, open_gallery, original_of_image, guest_preview_key,
  guest_media_preview, guest_play_key, guest_media_play,
}

-- What stands behind a link that a guest gets: the event is stored under the slug, live, on a
-- package with a gallery and with its gallery switched on; the item is one of the event's, uploaded
-- and processed, and the key is one that `Key` allows for it.
pub record ShownToGuest (Key : Media → Text → Type 0) (db db' : Db) (slug : Text) (media_id : ℕ)
    (key : Text) : Type 0 where
  pub event : Event
  pub stored_event : In event db.events
  pub named : event.slug ≡ slug
  pub live : event.status ≡ EventStatus.live
  pub included : (get_package db event.package_code).guest_gallery ≡ true
  pub switched_on : event.guest_gallery_enabled ≡ true
  pub media : Media
  pub stored : In media db.media
  pub same_id : media.id ≡ media_id
  pub of_event : media.event_id ≡ event.id
  pub uploaded : media.status ≡ MediaStatus.uploaded
  pub processed : media.processing_status ≡ ProcessingStatus.ready
  pub allowed : Key media key
  pub unchanged : db' ≡ db

-- A preview, a poster, or the original where that is an image.
abbrev pub PreviewKey : Media → Text → Type 0
PreviewKey m key =
    (m.preview_object_key ≡ some key)
    ⊎ ((m.poster_object_key ≡ some key)
        ⊎ ((m.object_key ≡ key) × (starts_with m.content_type (text "image/") ≡ true)))

-- The processed film of a video.
abbrev pub PlayKey : Media → Text → Type 0
PlayKey m key =
    (m.processed_object_key ≡ some key) × (starts_with m.content_type (text "video/") ≡ true)

or_key_ok :
    (a b : Option Text) {key : Text} → or_key a b ≡ some key → (a ≡ some key) ⊎ (b ≡ some key)
or_key_ok none b h = inr h
or_key_ok (some []) b h = inr h
or_key_ok (some (c ∷ t)) b h = inl h

non_empty_ok : (t : Text) {key : Text} → non_empty t ≡ some key → t ≡ key
non_empty_ok [] h = cc
non_empty_ok (c ∷ t) h = cc

original_ok :
    (m : Media) {key : Text}
    → original_of_image m ≡ some key
    → (m.object_key ≡ key) × (starts_with m.content_type (text "image/") ≡ true)
original_ok m h = elim (Bool-cases (starts_with m.content_type (text "image/"))) [
  | inl image ↦ (non_empty_ok m.object_key (rw image at h), image)
  | inr other ↦ absurd (none-some (rw other at h))
]

preview_ok : (m : Media) (key : Text) → guest_preview_key m ≡ some key → PreviewKey m key
preview_ok m key h =
    elim (or_key_ok (or_key m.preview_object_key m.poster_object_key) (original_of_image m) h) [
      | inl derived ↦ elim (or_key_ok m.preview_object_key m.poster_object_key derived) [
        | inl preview ↦ inl preview
        | inr poster ↦ inr (inl poster)
      ]
      | inr original ↦ inr (inr (original_ok m original))
    ]

play_ok : (m : Media) (key : Text) → guest_play_key m ≡ some key → PlayKey m key
play_ok m key h = elim (Bool-cases (starts_with m.content_type (text "video/"))) [
  | inl video ↦ (truthy-some m.processed_object_key (rw video at h), video)
  | inr other ↦ absurd (none-some (rw other at h))
]

live_ok : (s : EventStatus) → is_live s ≡ true → s ≡ EventStatus.live
live_ok s h = ground arith

uploaded_ok : (s : MediaStatus) → is_uploaded s ≡ true → s ≡ MediaStatus.uploaded
uploaded_ok s h = ground arith

ready_ok : (s : ProcessingStatus) → is_ready s ≡ true → s ≡ ProcessingStatus.ready
ready_ok s h = ground arith

guest_item_ok :
    (id event_id : ℕ) (m : Media)
    → guest_item id event_id m ≡ true
    → (m.id ≡ id)
      × (m.event_id ≡ event_id)
      × (is_uploaded m.status ≡ true)
      × (is_ready m.processing_status ≡ true)
guest_item_ok id event_id m h = (ground arith, ground arith, ground arith, ground arith)

both : (a b : Bool) → (a && b) ≡ true → (a ≡ true) × (b ≡ true)
both a b h = ground arith

link_ok :
    (db db' : Db) (o : Option Text) (key : Text)
    → link db o ≡ ok (redirect (Location.presigned key), db')
    → (o ≡ some key) × (db' ≡ db)
link_ok db db' o key h = ground arith

open_gallery_ok :
    (db : Db) (slug : Text) (e : Event)
    → open_gallery db slug ≡ ok e
    → (find (has_slug slug) db.events ≡ some e)
      × (is_live e.status ≡ true)
      × (gallery_open db e ≡ true)
unfolding open_gallery live_event_by_slug
open_gallery_ok db slug e h =
    let (e₁, live, h₁) = bind_ok (live_event_by_slug db slug) _ h in
    let (e₂, found, h₂) = bind_ok (or_raise (find (has_slug slug) db.events) 404) _ live in
    let (_, is_on, h₃) = bind_ok (raise_if (not (is_live e₂.status)) 403) _ h₂ in
    let (_, shown, h₄) = bind_ok (raise_if (not (gallery_open db e₁)) 404) _ h₁ in
    let row = or_raise_ok (find (has_slug slug) db.events) 404 found in
    let not_draft = raise_if_ok (not (is_live e₂.status)) 403 is_on in
    let not_closed = raise_if_ok (not (gallery_open db e₁)) 404 shown in
    let same : e₂ ≡ e₁ = ok_inj h₃ in
    let last : e₁ ≡ e = ok_inj h₄ in
    (
      row ∙ ap some (same ∙ last),
      ap (λ x. is_live x.status) (sym (same ∙ last)) ∙ not-not not_draft,
      ap (gallery_open db) (sym last) ∙ not-not not_closed,
    )

-- The tail that the two handlers share.
module _ (Key : Media → Text → Type 0) (key_of : Media → Option Text)
    (sound : (m : Media) (key : Text) → key_of m ≡ some key → Key m key) (db db' : Db) (slug : Text)
    (media_id : ℕ) (key : Text) where
  shown_by :
      (do
        e ← open_gallery db slug
        m ← or_raise (find (guest_item media_id e.id) db.media) 404
        link db (key_of m))
        ≡ ok (redirect (Location.presigned key), db')
      → ShownToGuest Key db db' slug media_id key
  shown_by h =
      let (e, shown, h₁) = bind_ok (open_gallery db slug) _ h in
      let (m, found, h₂) = bind_ok (or_raise (find (guest_item media_id e.id) db.media) 404) _ h₁ in
      let row = or_raise_ok (find (guest_item media_id e.id) db.media) 404 found in
      let (named, live, gallery) = open_gallery_ok db slug e shown in
      let (that_key, unchanged) = link_ok db db' (key_of m) key h₂ in
      let (same_id, home, is_up, is_done) =
        guest_item_ok media_id e.id m (find_passes (guest_item media_id e.id) db.media row) in
      let (plan, switch) =
        both (get_package db e.package_code).guest_gallery e.guest_gallery_enabled gallery in
      record {
        event = e;
        stored_event = find-In (has_slug slug) db.events named;
        named = (text_eq_iff e.slug slug).0 (find_passes (has_slug slug) db.events named);
        live = live_ok e.status live;
        included = plan;
        switched_on = switch;
        media = m;
        stored = find-In (guest_item media_id e.id) db.media row;
        same_id = same_id;
        of_event = home;
        uploaded = uploaded_ok m.status is_up;
        processed = ready_ok m.processing_status is_done;
        allowed = sound m key that_key;
        unchanged = unchanged;
      }

-- A guest is led to a preview only in a stored event of that slug that is live, whose package has
-- a guest gallery and whose host has switched it on, and of an item under that id and of that
-- event that is uploaded and processed; the link is to the item's preview, to its poster, or to
-- the original where that is an image; no row changes.
pub guest_preview_guarded :
    (db db' : Db) (slug : Text) (media_id : ℕ) (key : Text)
    → guest_media_preview db slug media_id ≡ ok (redirect (Location.presigned key), db')
    → ShownToGuest PreviewKey db db' slug media_id key
unfolding guest_media_preview
guest_preview_guarded db db' slug media_id key h =
    shown_by PreviewKey guest_preview_key preview_ok db db' slug media_id key h

-- A guest is given a film to play only under the same conditions, of a video; the link is to the
-- processed film, never to the original; no row changes.
pub guest_play_guarded :
    (db db' : Db) (slug : Text) (media_id : ℕ) (key : Text)
    → guest_media_play db slug media_id ≡ ok (redirect (Location.presigned key), db')
    → ShownToGuest PlayKey db db' slug media_id key
unfolding guest_media_play
guest_play_guarded db db' slug media_id key h =
    shown_by PlayKey guest_play_key play_ok db db' slug media_id key h
