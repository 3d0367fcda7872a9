-- ===== src/Uploads/Confirm.antt =====
-- Confirmation: that repeating it changes nothing, and that it changes no event's usage.
use markmonica.Base.{
  ℕ, ◌+◌, ◌≤◌, ◌≡◌, refl, Bool, true, some, bit, arith, if◌then◌else◌, ap, sym, Bool-cases, inl,
  inr, ◌⊎◌, ==_refl,
}
use markmonica.Base.Tables.{count, find, put, count-put, sum_of-put, find_passes}
use markmonica.Base.Membership.{find_stronger, find-put_stronger}
use markmonica.Base.Texts.{Text, text_eq, lower, is_empty}
use markmonica.Model.{Db, Event, Media, MediaStatus}
use markmonica.Http.{ok, Response, success, or_raise}
use markmonica.Http.Post.{bind_ok, returned_db, or_raise_ok}
use markmonica.Uploads.Enforcement.{
  EventPackageUsage, event_package_usage, reserves, counted_for, size_of,
}
use markmonica.Uploads.Handlers.{
  Head, object, client_error, other_error, live_event_by_slug, media_has_id, media_of,
  confirmed_media, confirm_upload, confirm_media, is_uploaded, verify_object, save_media,
}

-- The store has an object of the announced length and, if it tells one, of the announced type.
pub data Verified (m : Media) : Head → Type 0 where
  verified :
      (type : Text)
      → (is_empty (lower type) ≡ true) ⊎ (text_eq (lower type) (lower m.content_type) ≡ true)
      → Verified m (object m.size_bytes type)

verify_object_ok : (h : Head) (m : Media) {u : Unit {0}} → verify_object h m ≡ ok u → Verified m h
unfolding verify_object
verify_object_ok (client_error code status) m e = cc
verify_object_ok other_error m e = cc
verify_object_ok (object length type) m e =
    let same : length ≡ m.size_bytes = ground arith in rw same (verified type (ground arith))

uploaded_ok : (s : MediaStatus) → is_uploaded s ≡ true → s ≡ MediaStatus.uploaded
uploaded_ok s h = ground arith

-- What a confirmation has done to the row `m`.
abbrev pub Confirmed : (Text → Head) → Db → Db → Media → Type 0
Confirmed head db db' m =
    ((m.status ≡ MediaStatus.uploaded) × (db' ≡ db))
    ⊎ (Verified m (head m.object_key) × (db' ≡ save_media (confirmed_media m) db))

confirm_media_ok :
    (head : Text → Head) (db : Db) (m : Media) {reply : Response} {db' : Db}
    → confirm_media head db m ≡ ok (reply, db')
    → Confirmed head db db' m
unfolding confirm_media
confirm_media_ok head db m {reply} {db'} e = elim (Bool-cases (is_uploaded m.status)) [
  | inl before ↦
      inl (uploaded_ok m.status before, sym (returned_db success reply db db' (rw before at e)))
  | inr now ↦
      let (_, checked, e₁) = bind_ok (verify_object (head m.object_key) m) _ (rw now at e) in
      inr (
        verify_object_ok (head m.object_key) m checked,
        sym (returned_db success reply (save_media (confirmed_media m) db) db' e₁),
      )
]

-- A confirmation that is accepted found the event's row, which it left or saved.
pub confirm_upload_lem :
    (head : Text → Head) (db : Db) (slug : Text) (id : ℕ) {reply : Response} {db' : Db}
    → confirm_upload head db slug id ≡ ok (reply, db')
    → (e : Event) × (m : Media) × (live_event_by_slug db slug ≡ ok e)
      × (find (media_of id e.id) db.media ≡ some m)
      × Confirmed head db db' m
unfolding confirm_upload
confirm_upload_lem head db slug id h =
    let (e, lives, h₁) = bind_ok (live_event_by_slug db slug) _ h in
    let (m, held, h₂) = bind_ok (or_raise (find (media_of id e.id) db.media) 404) _ h₁ in
    (e, m, lives, or_raise_ok _ 404 held, confirm_media_ok head db m h₂)

-- With unique ids, the row of the event is the row under its id.
module _ (db : Db) (id event_id : ℕ) (m : Media) (unique : count (media_has_id id) db.media ≤ 1)
    (held : find (media_of id event_id) db.media ≡ some m) where
  pub media_of_ok : (m.id ≡ id) × (m.event_id ≡ event_id)
  media_of_ok =
      let passes = find_passes (media_of id event_id) db.media held in ground (arith, passes)

  pub under_its_id : find (media_has_id m.id) db.media ≡ some m
  under_its_id =
      find_stronger (media_of id event_id) (media_has_id m.id) db.media held (==_refl m.id)
        (rw media_of_ok.0 unique)

  found_again :
      find (media_of id event_id) (put (media_has_id m.id) (confirmed_media m) db.media)
      ≡ some (confirmed_media m)
  found_again =
      find-put_stronger (media_of id event_id) (media_has_id m.id) (confirmed_media m) db.media
        (λ z p. rw media_of_ok.0 (ground arith)) under_its_id
        (find_passes (media_of id event_id) db.media held)

live_again :
    (db : Db) (rows : _) (slug : Text) {e : Event}
    → live_event_by_slug db slug ≡ ok e
    → live_event_by_slug (record db { media = rows }) slug ≡ ok e
unfolding live_event_by_slug
live_again db rows slug h = h

confirmed_twice :
    (head : Text → Head) (db : Db) (m : Media)
    → m.status ≡ MediaStatus.uploaded
    → confirm_media head db m ≡ ok (success, db)
unfolding confirm_media
confirmed_twice head db m e = rw e

-- With at most one row under the id, a confirmation that was accepted is accepted again and
-- changes nothing more, whatever the store answers by then.
pub confirm_upload_idempotent :
    (head head' : Text → Head) (db : Db) (slug : Text) (id : ℕ) {reply : Response} {db' : Db}
    → count (media_has_id id) db.media ≤ 1
    → confirm_upload head db slug id ≡ ok (reply, db')
    → confirm_upload head' db' slug id ≡ ok (success, db')
unfolding confirm_upload
confirm_upload_idempotent head head' db slug id {reply} {db'} unique h =
    let (e, m, lives, held, outcome) = confirm_upload_lem head db slug id h in
    elim outcome [
      | inl (before, same) ↦ rw (same, lives, held) (confirmed_twice head' db m before)
      | inr (_, written) ↦
          rw (written, live_again db _ slug lives, found_again db id e.id m unique held)
            (confirmed_twice head' _ (confirmed_media m) refl)
    ]

same_count : (a b : ℕ) (x y : Bool) → y ≡ x → a + bit x ≡ b + bit y → a ≡ b
same_count a b x y e h = omega (arith, ap bit e)

same_sum :
    (a b n : ℕ) (x y : Bool) → y ≡ x → a + (if x then n else 0) ≡ b + (if y then n else 0) → a ≡ b
same_sum a b n x y e h = ground arith

same_usage :
    (a b c d : ℕ)
    → a ≡ b
    → c ≡ d
    → ◌≡◌ {A = EventPackageUsage}
        (record { media_count = a; storage_bytes = c })
        (record { media_count = b; storage_bytes = d })
same_usage a b c d p q = cc

saved_usage :
    (db : Db) (k : Event) (m : Media)
    → find (media_has_id m.id) db.media ≡ some m
    → reserves m.status ≡ true
    → event_package_usage (save_media (confirmed_media m) db) k ≡ event_package_usage db k
unfolding event_package_usage
saved_usage db k m own reserved =
    let m' = confirmed_media m in
    let rows = db.media in
    let counted : counted_for k.id m' ≡ counted_for k.id m = rw reserved in
    let counts = count-put (counted_for k.id) (media_has_id m.id) m' rows own in
    let sums = sum_of-put (counted_for k.id) (media_has_id m.id) size_of m' rows own in
    same_usage _ _ _ _ (same_count _ _ _ _ counted counts)
      (same_sum _ _ m.size_bytes _ _ counted sums)

-- With at most one row under the id, and that row in a status that reserves its place, a
-- confirmation that is accepted leaves every event's usage as it was.
pub confirm_upload_usage :
    (head : Text → Head) (db : Db) (slug : Text) (id : ℕ) (k : Event) {reply : Response} {db' : Db}
    → count (media_has_id id) db.media ≤ 1
    → ((m : Media)
        → find (media_has_id m.id) db.media ≡ some m
        → m.id ≡ id
        → reserves m.status ≡ true)
    → confirm_upload head db slug id ≡ ok (reply, db')
    → event_package_usage db' k ≡ event_package_usage db k
confirm_upload_usage head db slug id k unique reserved h =
    let (e, m, lives, held, outcome) = confirm_upload_lem head db slug id h in
    let own = under_its_id db id e.id m unique held in
    elim outcome [
      | inl (before, same) ↦ rw same
      | inr (_, written) ↦
          rw written
            (saved_usage db k m own (reserved m own (media_of_ok db id e.id m unique held).0))
    ]
