-- ===== src/Covers/Confirmed.antt =====
-- An upload of a cover that was begun can be confirmed, and is then what the host is shown.
use markmonica.Base.{
  not-not, ℕ, Bool, true, false, not, ◌&&◌, ◌≡◌, refl, sym, ap, ◌∙◌, Option, some, ◌++◌, arith,
  ==_refl,
}
use markmonica.Base.Tables.{find}
use markmonica.Base.Membership.{find_weaker, find-put_stronger}
use markmonica.Base.Int.{pos_part}
use markmonica.Base.Texts.{
  Text, text, text_eq_refl, truthy, starts_with, starts_with-append, lower, is_empty,
}
use markmonica.Model.{Db, User, Event}
use markmonica.Http.{ok, Request, redirect, Location, success}
use markmonica.Http.Post.{ok_inj, bind_ok, or_raise_ok, raise_if_ok}
use markmonica.Accounts.{
  Settings, require_same_origin, current_user, user_from_session_token, require_user, visible_to,
  event_for_owner, event_for_owner_ok,
}
use markmonica.Packages.{get_package}
use markmonica.Orders.{save_event, event_has_id}
use markmonica.Uploads.Enforcement.{require_feature, validate_cover}
use markmonica.Uploads.Handlers.{Head, object}
use markmonica.Covers.{
  CoverRequest, cover_type, cover_prefix, extension, cover_event, initiate_cover, verify_cover,
  with_cover, replaced, confirm_cover, host_cover,
}

-- The checks at the head of both handlers leave an event of the user.
module _ (s : Settings) (req : Request) (db : Db) (event_id : ℕ) (r : CoverRequest) where
  pub cover_event_ok :
      (e : Event)
      → cover_event s req db event_id r ≡ ok e
      → (u : User) × (require_user s req db ≡ ok u)
        × (event_for_owner db u (some event_id) ≡ ok e)
        × ((get_package db e.package_code).custom_event_design ≡ true)
  unfolding cover_event
  cover_event_ok e h =
      let (_, _, h₁) = bind_ok (require_same_origin s req) _ h in
      let (u, signed, h₂) = bind_ok (require_user s req db) _ h₁ in
      let (x, found, h₃) = bind_ok (event_for_owner db u (some event_id)) _ h₂ in
      let (_, feature, h₄) =
        bind_ok (require_feature (get_package db x.package_code).custom_event_design) _ h₃ in
      let (_, _, h₅) = bind_ok (validate_cover (cover_type r) r.size_bytes) _ h₄ in
      let same : x ≡ e = ok_inj h₅ in
      (
        u,
        signed,
        found ∙ ap ok same,
        ap (λ y. (get_package db y.package_code).custom_event_design) (sym same)
            ∙ not-not (raise_if_ok _ 403 feature),
      )

-- After a write of the event that a lookup for the user has found, the lookup finds what was
-- written.
pub event_for_owner_saved :
    (db : Db) (u : User) (e e' : Event) (id : ℕ)
    → event_for_owner db u (some id) ≡ ok e
    → e'.id ≡ e.id
    → e'.owner_id ≡ e.owner_id
    → event_for_owner (save_event e' db) u (some id) ≡ ok e'
unfolding event_for_owner
event_for_owner_saved db u e e' id found same owner =
    let row = or_raise_ok (find (visible_to u id) db.events) 404 found in
    let (named, allowed) = event_for_owner_ok db u e id found in
    let key : e'.id ≡ id = same ∙ named in
    let (x, held) =
      find_weaker (visible_to u id) (event_has_id e'.id) db.events (λ z k. ground (arith, key))
        row in
    let passes : visible_to u id e' ≡ true = ground (arith, key, owner, allowed, ==_refl id) in
    rw
      (find-put_stronger (visible_to u id) (event_has_id e'.id) e' db.events
        (λ z k. ground (arith, key)) held passes)
      refl

and_false : (b : Bool) → (b && not true) ≡ false
and_false b = ground arith

module _ (s : Settings) (req : Request) (db : Db) (event_id : ℕ) (r : CoverRequest) (key : Text)
    (e : Event) where
  confirms :
      (head : Text → Head) (stored : Text)
      → cover_event s req db event_id r ≡ ok e
      → starts_with key (cover_prefix s e) ≡ true
      → head key ≡ object (pos_part r.size_bytes) stored
      → lower stored ≡ cover_type r
      → confirm_cover s head req db event_id key r
        ≡ ok (
          (success, save_event (with_cover key (cover_type r) e) db),
          replaced (truthy e.cover_object_key) key,
        )
  unfolding confirm_cover verify_cover
  confirms head stored event prefix there type =
      rw
        (
          event,
          prefix,
          there,
          type,
          ==_refl (pos_part r.size_bytes),
          text_eq_refl (cover_type r),
          and_false (not (is_empty (cover_type r))),
        )
        refl

  shows :
      (u : User)
      → require_user s req db ≡ ok u
      → event_for_owner db u (some event_id) ≡ ok e
      → truthy (some key) ≡ some key
      → host_cover s req (save_event (with_cover key (cover_type r) e) db) event_id
        ≡ ok (redirect (Location.presigned key), save_event (with_cover key (cover_type r) e) db)
  unfolding host_cover require_user current_user user_from_session_token
  shows u signed found shown =
      rw
        (
          signed,
          event_for_owner_saved db u e (with_cover key (cover_type r) e) event_id found refl refl,
          shown,
        )
        refl

-- An upload that was begun: once the object store has an object under the key of the answer, of
-- the size and type announced, the confirmation with the same request succeeds, and from then on
-- the host who asks for the cover is led to that object.
pub cover_round_trip :
    (s : Settings) (token : Text) (head : Text → Head) (req : Request) (db : Db) (event_id : ℕ)
    (r : CoverRequest) (key stored : Text)
    → initiate_cover s token req db event_id r ≡ ok key
    → head key ≡ object (pos_part r.size_bytes) stored
    → lower stored ≡ cover_type r
    → (db' : Db) × (previous : Option Text) × (confirm_cover s head req db event_id key r
        ≡ ok ((success, db'), previous))
      × (host_cover s req db' event_id ≡ ok (redirect (Location.presigned key), db'))
unfolding initiate_cover cover_prefix
cover_round_trip s token head req db event_id r key stored began there type =
    let (e, event, made) = bind_ok (cover_event s req db event_id r) _ began in
    let name = token ++ text "." ++ extension (cover_type r) in
    let own : cover_prefix s e ++ name ≡ key = ok_inj made in
    let prefix : starts_with key (cover_prefix s e) ≡ true =
      ap (λ k. starts_with k (cover_prefix s e)) (sym own)
      ∙ starts_with-append (cover_prefix s e) name in
    let (u, signed, found, _) = cover_event_ok s req db event_id r e event in
    let shown : truthy (some key) ≡ some key = ap (λ k. truthy (some k)) (sym own) ∙ ap some own in
    (
      save_event (with_cover key (cover_type r) e) db,
      replaced (truthy e.cover_object_key) key,
      confirms s req db event_id r key e head stored event prefix there type,
      shows s req db event_id r key e u signed found shown,
    )
