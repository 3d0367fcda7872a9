-- ===== src/Covers/Guarded.antt =====
-- What a confirmation of a cover has verified, and what it leaves behind.
use mathlib.Core.Path.{subst}
use markmonica.Base.{
  not-not, none-some, some_inj, ℕ, true, false, not, ◌&&◌, ◌==◌, ◌≡◌, refl, ◌⊎◌, sym, ap, ◌∙◌,
  Option, none, some, ◌++◌, arith, Bool-cases, inl, inr,
}
use markmonica.Base.Tables.{find, find-put_other}
use markmonica.Base.Int.{pos_part}
use markmonica.Base.Texts.{
  Text, text, text_eq, text_eq_iff, truthy, truthy-some, starts_with, lower, strip, is_empty,
}
use markmonica.Model.{Db, User, Event}
use markmonica.Http.{ok, raise_if, Request, Response, success}
use markmonica.Http.Post.{ok_inj, bind_ok, raise_if_ok}
use markmonica.Accounts.{Settings, event_for_owner}
use markmonica.Accounts.Owners.{Entitled, event_for_owner-Entitled}
use markmonica.Packages.{get_package}
use markmonica.Orders.{save_event, event_has_id}
use markmonica.Uploads.Handlers.{Head, object, client_error, other_error}
use markmonica.Covers.{
  CoverRequest, cover_type, cover_prefix, cover_event, verify_cover, with_cover, replaced,
  confirm_cover,
}
use markmonica.Covers.Confirmed.{cover_event_ok, event_for_owner_saved}

-- The store has an object of the announced size and, if it tells a type, of the announced type.
pub data Announced (r : CoverRequest) : Head → Type 0 where
  announced :
      (type : Text)
      → (is_empty (lower type) ≡ true) ⊎ (lower type ≡ strip (lower r.content_type))
      → Announced r (object (pos_part r.size_bytes) type)

type_ok :
    (t u : Text) → (not (is_empty t) && not (text_eq t u)) ≡ false → (is_empty t ≡ true) ⊎ (t ≡ u)
type_ok t u h = elim (Bool-cases (is_empty t)) [
  | inl blank ↦ inl blank
  | inr given ↦ inr ((text_eq_iff t u).0 (not-not (rw given at h)))
]

verify_cover_ok :
    (h : Head) (r : CoverRequest) {u : Unit {0}} → verify_cover h r ≡ ok u → Announced r h
unfolding verify_cover
verify_cover_ok (client_error code status) r e = cc
verify_cover_ok other_error r e = cc
verify_cover_ok (object length type) r e =
    let (_, sized, e₁) = bind_ok (raise_if (not (length == pos_part r.size_bytes)) 409) _ e in
    let same : length ≡ pos_part r.size_bytes = same_size (raise_if_ok _ 409 sized) in
    subst (λ n. Announced r (object n type)) (sym same)
      (announced type (type_ok (lower type) (cover_type r) (raise_if_ok _ 409 e₁)))
  where
    same_size : {n k : ℕ} → not (n == k) ≡ false → n ≡ k
    same_size h = ground arith

-- What a confirmed cover is.
pub record Confirmed (s : Settings) (head : Text → Head) (req : Request) (db db' : Db)
    (event_id : ℕ) (key : Text) (r : CoverRequest) (deleted : Option Text) : Type 0 where
  pub user : User
  pub event : Event
  pub entitled : Entitled s req db event_id user event
  pub included : (get_package db event.package_code).custom_event_design ≡ true
  pub own_key : starts_with key (text "events/" ++ s.str_uuid event.id ++ text "/cover/") ≡ true
  pub verified : Announced r (head key)
  -- the event has that cover, with all else as it was, and is what its owner finds
  pub saved :
      event_for_owner db' user (some event_id)
      ≡ ok (record event {
        cover_object_key = some key;
        cover_content_type = some (strip (lower r.content_type));
      })
  -- no other event and no other table changes
  pub others :
      (id : ℕ)
      → (event_id == id) ≡ false
      → find (event_has_id id) db'.events ≡ find (event_has_id id) db.events
  pub rest : db' ≡ record db { events = db'.events }
  pub former :
      (k : Text) → deleted ≡ some k → (text_eq k key ≡ false) × (event.cover_object_key ≡ some k)

replaced_other :
    (previous : Option Text) (key k : Text)
    → replaced previous key ≡ some k
    → (text_eq k key ≡ false) × (previous ≡ some k)
replaced_other none key k h = cc
replaced_other (some p) key k h = elim (Bool-cases (text_eq p key)) [
  | inl same ↦ absurd (none-some (rw same at h))
  | inr other ↦
      let is : p ≡ k = some_inj (rw other at h) in
      (ap (λ x. text_eq x key) (sym is) ∙ other, ap some is)
]

-- The record, for the database that the confirmation writes.
cover_left :
    (s : Settings) (head : Text → Head) (req : Request) (db : Db) (event_id : ℕ) (key : Text)
    (r : CoverRequest) {user : User} {e : Event}
    → Entitled s req db event_id user e
    → (get_package db e.package_code).custom_event_design ≡ true
    → starts_with key (cover_prefix s e) ≡ true
    → Announced r (head key)
    → Confirmed s head req db
        (save_event (with_cover key (cover_type r) e) db)
        event_id
        key
        r
        (replaced (truthy e.cover_object_key) key)
unfolding cover_prefix
cover_left s head req db event_id key r {user} {e} who plan own verified =
    let e' = with_cover key (cover_type r) e in
    record {
      user = user;
      event = e;
      entitled = who;
      included = plan;
      own_key = own;
      verified = verified;
      saved = event_for_owner_saved db user e e' event_id who.looked_up refl refl;
      others = λ id apart.
          let named = who.named in
          find-put_other (event_has_id id) (event_has_id e.id) e' db.events (λ z h. ground arith)
            (ap (λ k. k == id) named ∙ apart);
      rest = refl;
      former = λ k is.
          let (other, was) = replaced_other (truthy e.cover_object_key) key k is in
          (other, truthy-some e.cover_object_key was);
    }

-- A confirmation only succeeds for a signed-in user who owns the event or is an administrator,
-- where the event's package includes its design and the object store has, under a key below the
-- event's own folder for covers, an object of the announced size that is of the announced type or
-- of none. Then the event, as its owner finds it, has that key and type for its cover and is
-- otherwise as it was; no event under another id and no other table changes; and a key that the
-- store is asked to delete is that of the former cover and not the new one's.
pub confirm_cover_guarded :
    (s : Settings) (head : Text → Head) (req : Request) (db db' : Db) (event_id : ℕ) (key : Text)
    (r : CoverRequest) (response : Response) (deleted : Option Text)
    → confirm_cover s head req db event_id key r ≡ ok ((response, db'), deleted)
    → Confirmed s head req db db' event_id key r deleted
unfolding confirm_cover
confirm_cover_guarded s head req db db' event_id key r response deleted h =
    let (e, event, h₁) = bind_ok (cover_event s req db event_id r) _ h in
    let (_, own, h₂) = bind_ok (raise_if (not (starts_with key (cover_prefix s e))) 400) _ h₁ in
    let (_, verified, h₃) = bind_ok (verify_cover (head key) r) _ h₂ in
    let (u, signed, found, feature) = cover_event_ok s req db event_id r e event in
    let e' = with_cover key (cover_type r) e in
    let pair : ◌≡◌ {A = (Response × Db) × Option Text}
        ((success, save_event e' db), replaced (truthy e.cover_object_key) key)
        ((response, db'), deleted) =
      ok_inj h₃ in
    subst (λ x. Confirmed s head req db x.0.1 event_id key r x.1) pair
      (cover_left s head req db event_id key r
        (event_for_owner-Entitled s req db event_id signed found) feature
        (not-not (raise_if_ok (not (starts_with key (cover_prefix s e))) 400 own))
        (verify_cover_ok (head key) r verified))
