-- ===== src/Uploads/Quota.antt =====
-- The limits of an event's package hold of the rows that reserve them.
use mathlib.Core.Path.{subst}
use markmonica.Base.{
  ℕ, ◌+◌, ◌≤◌, ◌≡◌, refl, true, false, ◌&&◌, Option, none, some, List, [], ◌∷◌, ◌++◌, arith,
  ==_refl, ap, ◌∙◌, sym,
}
use markmonica.Base.Int.{ℤ, is_nonpositive, pos_part}
use markmonica.Base.Tables.{count-snoc, sum_of-snoc}
use markmonica.Base.Texts.{Text, text, lower, strip, starts_with}
use markmonica.Model.{Db, Event, Media, MediaStatus}
use markmonica.Http.{ok, Response, success, raise_if}
use markmonica.Http.Post.{bind_ok, returned_db, raise_if_ok}
use markmonica.Accounts.{Settings}
use markmonica.Packages.{get_package}
use markmonica.Uploads.Enforcement.{
  event_package_usage, counted_for, above, reached, enforce_upload_entitlement, validate_upload,
}
use markmonica.Uploads.Handlers.{
  UploadRequest, new_media, add_media, initiate_upload, live_event_by_slug,
  enforce_guest_upload_rate_limit,
}

-- A number within a limit that may be absent.
abbrev pub Within : ℕ → Option ℕ → Type 0
Within n none = Unit
Within n (some limit) = n ≤ limit

-- The usage of the event is within the limits of its package.
pub record IsWithinPackage (db : Db) (e : Event) : Type 0 where
  pub media :
      Within
        (event_package_usage db e).media_count
        (get_package db e.package_code).max_media_per_event
  pub storage :
      Within
        (event_package_usage db e).storage_bytes
        (get_package db e.package_code).max_storage_bytes_per_event

not_reached : (n : ℕ) (limit : Option ℕ) → reached n limit ≡ false → Within (n + 1) limit
not_reached n none h = tt
not_reached n (some l) h = ground arith

not_above : (n : ℕ) (limit : Option ℕ) → above n limit ≡ false → Within n limit
not_above n none h = tt
not_above n (some l) h = ground arith

add_media_ok :
    (m : Media) (db : Db) {db' : Db}
    → add_media m db ≡ ok db'
    → db' ≡ record db { media = db.media ++ m ∷ [] }
unfolding add_media
add_media_ok m db h = ground arith

entitled :
    (db : Db) (e : Event) (t : Text) (size : ℕ) {u : Unit {0}}
    → enforce_upload_entitlement db e t size ≡ ok u
    → let p = get_package db e.package_code in
      let usage = event_package_usage db e in
      ((starts_with t (text "video/") && above size p.max_video_bytes) ≡ false)
      × Within (usage.media_count + 1) p.max_media_per_event
      × Within (usage.storage_bytes + size) p.max_storage_bytes_per_event
unfolding enforce_upload_entitlement
entitled db e t size h =
    let p = get_package db e.package_code in
    let usage = event_package_usage db e in
    let (_, video, h₁) =
      bind_ok (raise_if (starts_with t (text "video/") && above size p.max_video_bytes) 413) _ h in
    let (_, room, h₂) =
      bind_ok (raise_if (reached usage.media_count p.max_media_per_event) 409) _ h₁ in
    (
      raise_if_ok _ 413 video,
      not_reached usage.media_count p.max_media_per_event (raise_if_ok _ 409 room),
      not_above (usage.storage_bytes + size) p.max_storage_bytes_per_event (raise_if_ok _ 409 h₂),
    )

nonpositive_false : (size : ℤ) → is_nonpositive size ≡ false → 1 ≤ pos_part size
nonpositive_false size h = ground arith

validate_upload_positive :
    (s : Settings) (t : Text) (size : ℤ) {u : Unit {0}}
    → validate_upload s t size ≡ ok u
    → 1 ≤ pos_part size
unfolding validate_upload
validate_upload_positive s t size h =
    let (_, positive, _) = bind_ok (raise_if (is_nonpositive size) 400) _ h in
    nonpositive_false size (raise_if_ok (is_nonpositive size) 400 positive)

-- A new pending row of the event adds itself to its usage.
usage_snoc :
    (db : Db) (e : Event) (m : Media)
    → m.event_id ≡ e.id
    → m.status ≡ MediaStatus.pending
    → let db' = record db { media = db.media ++ m ∷ [] } in
      ((event_package_usage db' e).media_count ≡ (event_package_usage db e).media_count + 1)
      × ((event_package_usage db' e).storage_bytes
          ≡ (event_package_usage db e).storage_bytes + m.size_bytes)
unfolding event_package_usage
usage_snoc db e m home pending =
    let counts : counted_for e.id m ≡ true = rw (home, pending, ==_refl e.id) in
    (rw (count-snoc, counts), rw (sum_of-snoc, counts))

new_media_row :
    (s : Settings) (now id : ℕ) (token : Text) (e : Event) (t : Text) (r : UploadRequest)
    → let m = new_media s now id token e t r in
      (m.event_id ≡ e.id)
      × (m.status ≡ MediaStatus.pending)
      × (m.size_bytes ≡ pos_part r.size_bytes)
unfolding new_media
new_media_row s now id token e t r = (refl, refl, refl)

-- Packages are not stored in the media's table.
get_package-media :
    (db : Db) (rows : List Media) (code : Text)
    → get_package (record db { media = rows }) code ≡ get_package db code
unfolding get_package
get_package-media db rows code = refl

-- The facts about the limits before the row, at the usage after it.
module _ (db : Db) (e : Event) (m : Media) (home : m.event_id ≡ e.id)
    (pending : m.status ≡ MediaStatus.pending) where
  row_IsWithinPackage :
      Within
        ((event_package_usage db e).media_count + 1)
        (get_package db e.package_code).max_media_per_event
      → Within
          ((event_package_usage db e).storage_bytes + m.size_bytes)
          (get_package db e.package_code).max_storage_bytes_per_event
      → IsWithinPackage (record db { media = db.media ++ m ∷ [] }) e
  row_IsWithinPackage room space =
      let usage = usage_snoc db e m home pending in
      record {
        media = rw (usage.0, get_package-media db _ e.package_code) room;
        storage = rw (usage.1, get_package-media db _ e.package_code) space;
      }

-- An upload that is accepted is for a live event; with the new row the event is still within the
-- number of items and the bytes of its package; its usage grows by one item and by the announced
-- size, which is at least one byte.
pub initiate_upload_quota :
    (s : Settings) (rate_limit : ℕ) (hits : Option ℕ) (now id : ℕ) (token : Text) (db : Db)
    (slug : Text) (r : UploadRequest) {reply : Response} {db' : Db}
    → initiate_upload s rate_limit hits now id token db slug r ≡ ok (reply, db')
    → (e : Event) × (live_event_by_slug db slug ≡ ok e)
      × IsWithinPackage db' e
      × ((event_package_usage db' e).media_count ≡ (event_package_usage db e).media_count + 1)
      × ((event_package_usage db' e).storage_bytes
          ≡ (event_package_usage db e).storage_bytes + pos_part r.size_bytes)
      × (1 ≤ pos_part r.size_bytes)
unfolding initiate_upload
initiate_upload_quota s rate_limit hits now id token db slug r {reply} {db'} h =
    let t = strip (lower r.content_type) in
    let size = pos_part r.size_bytes in
    let (_, _, h₁) = bind_ok (enforce_guest_upload_rate_limit rate_limit hits) _ h in
    let (e, lives, h₂) = bind_ok (live_event_by_slug db slug) _ h₁ in
    let (_, valid, h₃) = bind_ok (validate_upload s t r.size_bytes) _ h₂ in
    let (_, allowed, h₄) = bind_ok (enforce_upload_entitlement db e t size) _ h₃ in
    let m = new_media s now id token e t r in
    let (db₁, added, h₅) = bind_ok (add_media m db) _ h₄ in
    let row = new_media_row s now id token e t r in
    let limits = entitled db e t size allowed in
    let written : record db { media = db.media ++ m ∷ [] } ≡ db' =
      sym (add_media_ok m db added) ∙ returned_db success reply db₁ db' h₅ in
    (
      e,
      lives,
      subst (λ x. IsWithinPackage x e) written
          (row_IsWithinPackage db e m row.0 row.1 limits.1 (rw row.2 limits.2)),
      subst
          (λ x. (event_package_usage x e).media_count ≡ (event_package_usage db e).media_count + 1)
          written (usage_snoc db e m row.0 row.1).0,
      subst
          (λ x.
            (event_package_usage x e).storage_bytes
            ≡ (event_package_usage db e).storage_bytes + size)
          written
          ((usage_snoc db e m row.0 row.1).1
            ∙ ap (λ k. (event_package_usage db e).storage_bytes + k) row.2),
      validate_upload_positive s t r.size_bytes valid,
    )
