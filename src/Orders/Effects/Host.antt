-- ===== src/Orders/Effects/Host.antt =====
-- The hosts' requests meet the specification.
use mathlib.Core.Path.{subst}
use markmonica.Base.{
  not-not, Bool, ◌<◌, ==_refl, ℕ, not, true, false, ◌≡◌, refl, ◌≤◌, inl, inr, Option, some, arith,
  leb, Option-cases, ◌++◌, [], ◌∷◌,
}
use markmonica.Base.Tables.{find, any, count, latest, any_weaker}
use markmonica.Base.Membership.{In, latest-In, find_unique}
use markmonica.Base.Texts.{Text, text, text_eq, strip, is_empty}
use markmonica.Model.{Db, User, Event, PackageConfig, PackageOrder, OrderStatus}
use markmonica.Http.{ok, Request, or_raise, raise_if}
use markmonica.Http.Post.{Returns, returned, bind, branch, or_raise_ok, raise_if_ok}
use markmonica.Accounts.{require_same_origin, event_for_owner}
use markmonica.Packages.{package_config}
use markmonica.Names.{slugify}
use markmonica.Orders.{
  order_has_id, event_has_id, lock_commercial_event, require_resolved_payments, outstanding_for,
  add_order, save_order,
}
use markmonica.Orders.Host.{
  Env, active_package, add_event, event_taken, create_event_on, create_event, place_order,
  change_package, package_request, pending_for, retarget, new_order, new_event, demo_or, read_date,
}
use markmonica.Orders.Effects.{Change, OnSale, Offers}
use markmonica.Orders.Effects.Rules.{logged_in_rule, locked_event, resolved, sold}

-- No two orders share an id: the primary key of the table.
abbrev pub UniqueOrders : Db → Type 0
UniqueOrders db = (id : ℕ) → count (order_has_id id) db.package_orders ≤ 1

pending_for_ok :
    (id : ℕ) (o : PackageOrder)
    → pending_for id o ≡ true
    → (o.status ≡ OrderStatus.pending) × (o.event_id ≡ id)
pending_for_ok id o h = ground arith

add_order_ok :
    (o : PackageOrder) (db : Db) {db' : Db}
    → add_order o db ≡ ok db'
    → (any (order_has_id o.id) db.package_orders ≡ false)
      × (db' ≡ record db { package_orders = db.package_orders ++ o ∷ [] })
unfolding add_order
add_order_ok o db e = ground arith

place_order-Change :
    {Admin : Type 0} (now : ℕ) (db : Db) (u : User) (e : Event) (p : PackageConfig) (id : ℕ)
    → UniqueOrders db
    → Offers db e p
    → p.payment_required ≡ true
    → Returns (Change Admin db) (place_order now db u e p id)
unfolding place_order
place_order-Change {Admin} now db u e p id unique offers paid =
    elim (Option-cases (latest (λ o. o.created_at) (pending_for e.id) db.package_orders)) [
      | inl none_left ↦
          rw (none_left, place_order)
            (bind (add_order (new_order now id e.id u p (text "host")) db) _
              λ db' added. returned (placed db' (add_order_ok _ db added)))
      | inr (o, chosen) ↦
          rw (chosen, place_order)
            (returned (retargeted o (latest-In _ _ db.package_orders chosen)))
    ]
  where
    placed :
        (db' : Db)
        → let o = new_order now id e.id u p (text "host") in
          (any (order_has_id o.id) db.package_orders ≡ false)
            × (db' ≡ record db { package_orders = db.package_orders ++ o ∷ [] })
          → Change Admin db db'
    placed db' (fresh, written) =
        Change.place e (new_order now id e.id u p (text "host")) p offers paid
          (record { of_event = refl; code = refl; price = refl; currency = refl; pending = refl })
          fresh (cc) (cc)

    retargeted :
        (o : PackageOrder)
        → In o db.package_orders × (pending_for e.id o ≡ true)
        → Change Admin db (save_order (retarget now p o) db)
    retargeted o (held, fits) =
        Change.retarget e o (retarget now p o) p
          (record {
            found =
                find_unique (order_has_id o.id) db.package_orders held (==_refl o.id) (unique o.id);
            same_id = refl;
            same_event = refl;
            written = refl;
          })
          (pending_for_ok e.id o fits).0 offers paid
          (record {
            of_event = (pending_for_ok e.id o fits).1;
            code = refl;
            price = refl;
            currency = refl;
            pending = (pending_for_ok e.id o fits).0;
          })
          refl

ranked : (n k : ℕ) → leb n k ≡ false → k < n
ranked n k h = ground arith

not-true : {b : Bool} → not b ≡ true → b ≡ false
not-true {b} h = ground arith

change_package-Change :
    {Admin : Type 0} (now : ℕ) (db : Db) (u : User) (e : Event) (p : PackageConfig) (id : ℕ)
    → UniqueOrders db
    → find (event_has_id e.id) db.events ≡ some e
    → OnSale db p
    → any (outstanding_for e.id) db.package_orders ≡ false
    → Returns (Change Admin db) (change_package now db u e p id)
unfolding change_package
change_package-Change now db u e p id unique found sale clear =
    branch (text_eq p.code e.package_code) _ _ (λ _. returned (Change.nothing refl refl))
      λ _. bind (or_raise (package_config db e.package_code) 409) _ λ current has.
        bind (raise_if (leb p.tier_rank current.tier_rank) 409) _ λ _ above.
          let offers : Offers db e p = record {
            stored = found;
            on_sale = sale;
            current = current;
            has = or_raise_ok (package_config db e.package_code) 409 has;
            higher = ranked p.tier_rank current.tier_rank (raise_if_ok _ 409 above);
            clear = clear;
          } in
          branch (not p.payment_required) _ _
            (λ free. returned (
              Change.assign e p offers (not-true free) refl
                (record { at = now; found = found; written = refl })))
            (λ paid. place_order-Change now db u e p id unique offers (not-not paid))

-- A request for a package has one of the effects of the specification.
pub package_request-Change :
    {Admin : Type 0} (env : Env) (req : Request) (db : Db) (event_id : Option ℕ) (code : Text)
    (id : ℕ)
    → UniqueOrders db
    → Returns (Change Admin db) (package_request env req db event_id code id)
unfolding package_request
package_request-Change env req db event_id code id unique =
    bind (require_same_origin env.settings req) _ λ _ _.
      logged_in_rule env req db _ (Change.nothing refl refl) λ u.
        bind (event_for_owner db u event_id) _ λ owned _.
          bind (lock_commercial_event db owned.id) _ λ e locked.
            bind (require_resolved_payments db e.id) _ λ _ clear.
              bind (active_package db code 400) _ λ p active.
                change_package-Change req.now db u e p id unique (locked_event db owned.id locked).0
                  (sold db code 400 active).1 (resolved db e.id clear)

add_event_ok :
    (e : Event) (db : Db) {db' : Db}
    → add_event e db ≡ ok db'
    → (any (event_taken e) db.events ≡ false) × (db' ≡ record db { events = db.events ++ e ∷ [] })
unfolding add_event
add_event_ok e db h = ground arith

event_fresh :
    (e : Event) (db : Db)
    → any (event_taken e) db.events ≡ false
    → any (event_has_id e.id) db.events ≡ false
event_fresh e db = any_weaker (event_taken e) (event_has_id e.id) (λ x h. ground arith) db.events

module _ {Admin : Type 0} (env : Env) (req : Request) (db : Db) (date : Text) (event_id id : ℕ)
    (token : Text) where
  create_event_on-Change :
      (u : User) (name : Text) (p : PackageConfig)
      → OnSale db p
      → Returns (Change Admin db) (create_event_on env req db u name p date event_id id token)
  unfolding create_event_on
  create_event_on-Change u name p sale =
      let e =
        new_event req.now event_id u (slugify name ++ text "-" ++ token) name (read_date env date)
          (demo_or p) in
      let o = new_order req.now id event_id u p (text "event_creation") in
      bind (or_raise (package_config db (demo_or p)) 503) _ λ assigned _.
        bind (add_event e db) _ λ db' added.
          let (fresh, one) = add_event_ok e db added in
          branch (not p.payment_required) _ _
            (λ free. returned (
              Change.create e p (event_fresh e db fresh) sale (not-true free) (ground arith) (cc)
                (cc)))
            λ paid. bind (add_order o db') _ λ db'' ordered.
              let (new, two) = add_order_ok o db' ordered in
              returned (
                Change.create_and_place e o p (event_fresh e db fresh) (ground arith) sale
                  (not-not paid)
                  (record {
                    of_event = refl;
                    code = refl;
                    price = refl;
                    currency = refl;
                    pending = refl;
                  })
                  (subst (λ x. any (order_has_id id) x.package_orders ≡ false) one new)
                  (subst (λ x. db''.package_orders ≡ x.package_orders ++ o ∷ []) one (cc two))
                  (cc (one, two)))

  -- A new event comes with a free package, or with a pending order for the package that was chosen.
  pub create_event-Change :
      (title code : Text)
      → Returns (Change Admin db) (create_event env req db title code date event_id id token)
  unfolding create_event
  create_event-Change title code = bind (require_same_origin env.settings req) _ λ _ _.
      logged_in_rule env req db _ (Change.nothing refl refl) λ u.
        branch (is_empty (strip title)) _ _ (λ _. returned (Change.nothing refl refl))
          λ _.
            bind (active_package db code 400) _
              λ p active. create_event_on-Change u (strip title) p (sold db code 400 active).1
