-- ===== src/Gallery/Deletion.antt =====
-- What a deletion by a host does to the table of media and to the object store.
use mathlib.Core.Path.{subst}
use markmonica.Base.{
  ◌≢◌, refl, clash, some_inj, ℕ, ◌≤◌, Bool, true, false, not, ◌==◌, ◌≡◌, inl, inr, sym, ◌∙◌, some,
  List, [], arith, ==_refl, Bool-cases,
}
use markmonica.Base.Tables.{count, select, length}
use markmonica.Base.Membership.{In, find_unique}
use markmonica.Base.Updates.{
  length-select, In-select, select-In, any-In, In-any, count-select_spare,
}
use markmonica.Base.Texts.{Text}
use markmonica.Model.{Db, User, Event, Media}
use markmonica.Http.{Result, ok, err, raise_if, Request, Response}
use markmonica.Http.Post.{bind_ok, raise_if_ok, returned_db}
use markmonica.Accounts.{
  Settings, require_same_origin, require_user, event_for_owner, event_for_owner_ok,
}
use markmonica.Accounts.Owners.{Entitled, event_for_owner-Entitled}
use markmonica.Storage.{delete_objects}
use markmonica.Storage.Batches.{flatten, AllAccepted}
use markmonica.Storage.Sent.{Sent, delete_objects_sends}
use markmonica.Uploads.Handlers.{media_has_id}
use markmonica.Archives.Downloads.{distinct_ids}
use markmonica.Gallery.Chosen.{chosen_iff, named_there}
use markmonica.Gallery.Keys.{HasKey, HasKey-keys_of, keys_of-HasKey}
use markmonica.Gallery.{keys_of, chosen, one_of_items, without, or_502, none_chosen, delete_media}

abbrev pub UniqueMedia : List Media → Type 0
UniqueMedia ms = (id : ℕ) → count (media_has_id id) ms ≤ 1

-- What a deletion has done.
pub record Deleted (s : Settings) (request : List Text → Bool) (req : Request) (db db' : Db)
    (event_id : ℕ) (media_ids : List ℕ) : Type 0 where
  pub user : User
  pub event : Event
  pub entitled : Entitled s req db event_id user event
  -- every id that was named was that of an item of the event, and no row has it any more
  pub complete :
      (id : ℕ)
      → In id media_ids
      → (m : Media) × In m db.media × (m.id ≡ id) × (m.event_id ≡ event_id)
  pub gone : (m : Media) → In m db'.media → In m.id media_ids → ⊥
  -- of the rows under other ids there are as many as before, of any kind
  pub others :
      (p : Media → Bool)
      → ((m : Media) → p m ≡ true → In m.id media_ids → ⊥)
      → count p db'.media ≡ count p db.media
  pub rest : db' ≡ record db { media = db'.media }
  -- the store accepted requests for each of the four keys of each item, and for no other key
  pub requests : List (List Text)
  pub sent :
      (m : Media) (k : Text)
      → In m db.media
      → In m.id media_ids
      → HasKey m k
      → k ≢ []
      → In k (flatten requests)
  pub theirs :
      (k : Text)
      → In k (flatten requests)
      → (m : Media) × In m db.media × (m.event_id ≡ event_id) × In m.id media_ids × HasKey m k
  pub accepted : AllAccepted request requests

same_length : {n k : ℕ} → not (n == k) ≡ false → n ≡ k
same_length h = ground arith

or_502_ok : (r : Result (Unit {0})) {u : Unit {0}} → or_502 r ≡ ok u → r ≡ ok u
or_502_ok (ok v) h = h
or_502_ok (err e) h = cc

module _ (event_id : ℕ) (ids : List ℕ) (ms : List Media) where
  abbrev items : List Media
  items = select (chosen event_id ids) ms

  chosen_covered :
      (m : Media) → In m ms → chosen event_id ids m ≡ true → one_of_items items m ≡ true
  chosen_covered m i c =
      any-In (λ item. item.id == m.id) items (In-select (chosen event_id ids) ms i c) (==_refl m.id)

  covered_chosen :
      (m : Media)
      → UniqueMedia ms
      → In m ms
      → one_of_items items m ≡ true
      → chosen event_id ids m ≡ true
  covered_chosen m u i h =
      let (item, there, same) = In-any (λ item. item.id == m.id) items h in
      let (stored, passes) = select-In (chosen event_id ids) ms there in
      let found = find_unique (media_has_id m.id) ms stored same (u m.id) in
      let found_m = find_unique (media_has_id m.id) ms i (==_refl m.id) (u m.id) in
      let one : item ≡ m = some_inj (sym found ∙ found_m) in
      subst (λ x. chosen event_id ids x ≡ true) one passes

-- A stored row under one of the ids is one of the event's items, where each id has one.
belongs :
    (ms : List Media) (event_id : ℕ) (ids : List ℕ) (m : Media)
    → UniqueMedia ms
    → ((id : ℕ) → In id ids → (x : Media) × In x ms × (x.id ≡ id) × (x.event_id ≡ event_id))
    → In m ms
    → In m.id ids
    → m.event_id ≡ event_id
belongs ms event_id ids m u complete i named =
    let (x, there, same, home) = complete m.id named in
    let keyed : (x.id == m.id) ≡ true = rw same (==_refl m.id) in
    let found = find_unique (media_has_id m.id) ms there keyed (u m.id) in
    let found_m = find_unique (media_has_id m.id) ms i (==_refl m.id) (u m.id) in
    subst (λ y. y.event_id ≡ event_id) (some_inj (sym found ∙ found_m)) home

-- The rows that are left, for an event and ids all of whose items are there.
module _ (s : Settings) (request : List Text → Bool) (req : Request) (db : Db) (event_id : ℕ)
    (media_ids : List ℕ) {user : User} {e : Event} (who : Entitled s req db event_id user e)
    (u : UniqueMedia db.media)
    (all : count (chosen event_id (distinct_ids [] media_ids)) db.media
      ≡ length (distinct_ids [] media_ids))
    (out : Sent request (keys_of (items event_id (distinct_ids [] media_ids) db.media))) where
  abbrev ids : List ℕ
  ids = distinct_ids [] media_ids

  there :
      (id : ℕ)
      → In id media_ids
      → (m : Media) × In m db.media × (m.id ≡ id) × (m.event_id ≡ event_id)
  there id = named_there event_id db.media media_ids id u all

  picked : (m : Media) → In m db.media → In m.id media_ids → chosen event_id ids m ≡ true
  picked m i named =
      (chosen_iff event_id media_ids m).1
        (belongs db.media event_id media_ids m u there i named, named)

  none_left :
      (m : Media) → In m (without (items event_id ids db.media) db).media → In m.id media_ids → ⊥
  none_left m i named =
      let covered = one_of_items (items event_id ids db.media) in
      let (stored, spared) = select-In (λ x. not (covered x)) db.media i in
      clash (chosen_covered event_id ids db.media m stored (picked m stored named))
        (not-not_true spared)
    where
      not-not_true : {b : Bool} → not b ≡ true → b ≡ false
      not-not_true {b} h = ground arith

  spared :
      (p : Media → Bool)
      → ((m : Media) → p m ≡ true → In m.id media_ids → ⊥)
      → (m : Media) → In m db.media
      → p m ≡ true
      → one_of_items (items event_id ids db.media) m ≡ false
  spared p apart m i h = elim (Bool-cases (one_of_items (items event_id ids db.media) m)) [
    | inl hit ↦
        let c = covered_chosen event_id ids db.media m u i hit in
        absurd (apart m h ((chosen_iff event_id media_ids m).0 c).1)
    | inr miss ↦ miss
  ]

  rows_removed :
      Deleted s request req db (without (items event_id ids db.media) db) event_id media_ids
  rows_removed = record {
    user = user;
    event = e;
    entitled = who;
    complete = there;
    gone = none_left;
    others = λ p apart.
        count-select_spare p (one_of_items (items event_id ids db.media)) db.media (spared p apart);
    rest = refl;
    requests = out.requests;
    sent = λ m k i named has given.
        let item = In-select (chosen event_id ids) db.media i (picked m i named) in
        out.complete k (HasKey-keys_of (items event_id ids db.media) m k item has) given;
    theirs = λ k i.
        let (key, _) = out.sound k i in
        let (m, item, has) = keys_of-HasKey (items event_id ids db.media) k key in
        let (stored, c) = select-In (chosen event_id ids) db.media item in
        let (home, named) = (chosen_iff event_id media_ids m).0 c in (m, stored, home, named, has);
    accepted = out.accepted;
  }

-- Where media ids are unique, a deletion that succeeds was asked for by a signed-in user who owns
-- the event or administers; every id that was named was that of an item of this event, and no row
-- has it any more; there are as many rows under other ids as before, of any kind, and no other
-- table changes; and the object store has accepted requests for the original, the preview, the
-- poster and the film of each item, where it has them, and for no other key.
pub delete_media_exact :
    (s : Settings) (request : List Text → Bool) (req : Request) (db db' : Db) (event_id : ℕ)
    (media_ids : List ℕ) (r : Response)
    → UniqueMedia db.media
    → delete_media s request req db event_id media_ids ≡ ok (r, db')
    → Deleted s request req db db' event_id media_ids
unfolding delete_media
delete_media_exact s request req db db' event_id media_ids r u h =
    let ids = distinct_ids [] media_ids in
    let (_, _, h₁) = bind_ok (require_same_origin s req) _ h in
    let (user, signed, h₂) = bind_ok (require_user s req db) _ h₁ in
    let (e, found, h₃) = bind_ok (event_for_owner db user (some event_id)) _ h₂ in
    let es = select (chosen e.id ids) db.media in
    let (_, some_named, h₄) = bind_ok (raise_if (none_chosen ids) 400) _ h₃ in
    let (_, all_there, h₅) = bind_ok (raise_if (not (length es == length ids)) 404) _ h₄ in
    let (u₆, deleted, h₆) = bind_ok (or_502 (delete_objects request (keys_of es))) _ h₅ in
    let named = (event_for_owner_ok db user e event_id found).0 in
    let whole = raise_if_ok (not (length es == length ids)) 404 all_there in
    let out : Sent request (keys_of es) =
      delete_objects_sends request (keys_of es)
        (or_502_ok (delete_objects request (keys_of es)) {u = u₆} deleted) in
    let result : without es db ≡ db' = returned_db _ r _ db' h₆ in
    subst (λ d. Deleted s request req db d event_id media_ids) result
      (subst
        (λ k.
          Deleted s request req db (without (select (chosen k ids) db.media) db) event_id media_ids)
        (sym named)
        (rows_removed s request req db event_id media_ids
          (event_for_owner-Entitled s req db event_id signed found) u
          (subst (λ k. count (chosen k ids) db.media ≡ length ids) named
            (sym (length-select (chosen e.id ids) db.media) ∙ same_length whole))
          (subst (λ k. Sent request (keys_of (select (chosen k ids) db.media))) named out)))
