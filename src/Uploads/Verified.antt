-- ===== src/Uploads/Verified.antt =====
-- What a confirmation has verified, and what it leaves behind.
use markmonica.Base.{some, ℕ, ◌==◌, ◌≤◌, ◌≡◌, refl, sym, false, not, ◌⊎◌, inl, inr, arith, ==_refl}
use mathlib.Core.Path.{subst}
use markmonica.Base.Tables.{find, count, find-put, find-put_other, find_passes}
use markmonica.Base.Membership.{In, find-In}
use markmonica.Base.Texts.{Text, text_eq_iff}
use markmonica.Model.{Db, Event, EventStatus, Media, MediaStatus, ProcessingStatus}
use markmonica.Http.{ok, Response, or_raise, raise_if}
use markmonica.Http.Post.{ok_inj, bind_ok, or_raise_ok, raise_if_ok}
use markmonica.Uploads.Handlers.{
  Head, has_slug, is_live, live_event_by_slug, media_has_id, confirmed_media, save_media,
  confirm_upload,
}
use markmonica.Uploads.Confirm.{Verified, confirm_upload_lem, media_of_ok, under_its_id}

-- The row `m` becomes uploaded and waits to be processed, with all else of it as it was; no row
-- under another id and no other table changes.
pub record BecameUploaded (db db' : Db) (m : Media) : Type 0 where
  pub now :
      find (media_has_id m.id) db'.media
      ≡ some
          (record m { status = MediaStatus.uploaded; processing_status = ProcessingStatus.pending })
  pub others :
      (id : ℕ)
      → (m.id == id) ≡ false
      → find (media_has_id id) db'.media ≡ find (media_has_id id) db.media
  pub rest : db' ≡ record db { media = db'.media }

-- What an accepted confirmation says.
pub record UploadConfirmed (head : Text → Head) (db db' : Db) (slug : Text) (id : ℕ) : Type 0 where
  pub event : Event
  pub stored_event : In event db.events
  pub named : event.slug ≡ slug
  pub live : event.status ≡ EventStatus.live
  pub media : Media
  pub stored : find (media_has_id id) db.media ≡ some media
  pub of_event : media.event_id ≡ event.id
  pub outcome :
      ((media.status ≡ MediaStatus.uploaded) × (db' ≡ db))
      ⊎ (Verified media (head media.object_key) × BecameUploaded db db' media)

live_ok : (s : EventStatus) → not (is_live s) ≡ false → s ≡ EventStatus.live
live_ok s h = ground arith

live_event_ok :
    (db : Db) (slug : Text) {e : Event}
    → live_event_by_slug db slug ≡ ok e
    → In e db.events × (e.slug ≡ slug) × (e.status ≡ EventStatus.live)
unfolding live_event_by_slug
live_event_ok db slug {e} h =
    let (x, found, h₁) = bind_ok (or_raise (find (has_slug slug) db.events) 404) _ h in
    let (_, guard, h₂) = bind_ok (raise_if (not (is_live x.status)) 403) _ h₁ in
    let row = or_raise_ok (find (has_slug slug) db.events) 404 found in
    subst (λ y. In y db.events × (y.slug ≡ slug) × (y.status ≡ EventStatus.live)) (ok_inj h₂)
      (
        find-In (has_slug slug) db.events row,
        (text_eq_iff x.slug slug).0 (find_passes (has_slug slug) db.events row),
        live_ok x.status (raise_if_ok _ 403 guard),
      )

saved-BecameUploaded :
    (db : Db) (m : Media)
    → find (media_has_id m.id) db.media ≡ some m
    → BecameUploaded db (save_media (confirmed_media m) db) m
saved-BecameUploaded db m own = record {
  now = find-put (media_has_id m.id) (confirmed_media m) db.media own (==_refl m.id);
  others = λ id apart.
      find-put_other (media_has_id id) (media_has_id m.id) (confirmed_media m) db.media
        (λ z h. ground arith) apart;
  rest = refl;
}

-- With at most one row under the id, a confirmation that is accepted found a live event of that
-- slug and the row under the id, which is the event's. Either the row was uploaded before and
-- nothing changes; or the store has, under the row's key, an object of the announced size that is
-- of the announced type or of none, the row becomes uploaded and waits to be processed with all
-- else of it as it was, and no row under another id and no other table changes.
pub confirm_upload_verifies :
    (head : Text → Head) (db : Db) (slug : Text) (id : ℕ) {reply : Response} {db' : Db}
    → count (media_has_id id) db.media ≤ 1
    → confirm_upload head db slug id ≡ ok (reply, db')
    → UploadConfirmed head db db' slug id
confirm_upload_verifies head db slug id {reply} {db'} unique h =
    let (e, m, lives, held, outcome) = confirm_upload_lem head db slug id h in
    let (there, named, live) = live_event_ok db slug lives in
    let (same, home) = media_of_ok db id e.id m unique held in
    let own = under_its_id db id e.id m unique held in
    record {
      event = e;
      stored_event = there;
      named = named;
      live = live;
      media = m;
      stored = subst (λ k. find (media_has_id k) db.media ≡ some m) same own;
      of_event = home;
      outcome = elim outcome [
        | inl (before, kept) ↦ inl (before, kept)
        | inr (checked, written) ↦ inr (
          checked,
          subst (λ d. BecameUploaded db d m) (sym written) (saved-BecameUploaded db m own),
        )
      ];
    }
