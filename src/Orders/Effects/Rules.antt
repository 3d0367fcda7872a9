-- ===== src/Orders/Effects/Rules.antt =====
-- Rules that the handlers' proofs share: the guards give what they have tested.
use mathlib.Core.Path.{subst}
use markmonica.Base.{
  ℕ, true, false, ◌≡◌, inl, inr, some, arith, Option-cases, Bool-cases, sym, ap, ◌∙◌,
}
use markmonica.Base.Tables.{find, put, any, find_passes, find_key}
use markmonica.Base.Texts.{Text, text_eq_iff}
use markmonica.Model.{Db, User, Event, PackageConfig, PackageOrder, OrderStatus}
use markmonica.Orders.Effects.{Change, Rewrites, SameTerms, Grounds, OnSale, ByAdmin}
use markmonica.Http.{Failure, Result, ok, err, Request, Response}
use markmonica.Http.Post.{Returns, returned, or_raise_ok}
use markmonica.Accounts.{current_user, require_admin}
use markmonica.Packages.{package_config, config_has_code}
use markmonica.Orders.{
  order_has_id, event_has_id, get_order, lock_commercial_event, require_resolved_payments,
  outstanding_for,
}
use markmonica.Orders.Host.{Env, logged_in, active_package, assign_package}
use markmonica.Orders.Checkout.{own_order}

err_ok : {A : Type 0} {e : Failure} {a : A} → ◌≡◌ {A = Result A} (err e) (ok a) → ⊥
err_ok h = cc

pub logged_in_rule :
    {P : Db → Type 0} (env : Env) (req : Request) (db : Db) (body : User → Result (Response × Db))
    → P db
    → ((u : User) → Returns P (body u))
    → Returns P (logged_in env req db body)
logged_in_rule env req db body same h = elim (Option-cases (current_user env.settings req db)) [
  | inl e ↦ rw (e, logged_in) (returned same)
  | inr (u, e) ↦ rw (e, logged_in) (h u)
]

pub package_config_code :
    (db : Db) (code : Text) {p : PackageConfig} → package_config db code ≡ some p → p.code ≡ code
unfolding package_config
package_config_code db code {p} e =
    (text_eq_iff p.code code).0 (find_passes (config_has_code code) db.package_configs e)

-- A package that is found under a code is found under its own code.
pub known_package :
    (db : Db) (code : Text) {p : PackageConfig}
    → package_config db code ≡ some p
    → package_config db p.code ≡ some p
known_package db code {p} e =
    subst (λ c. package_config db c ≡ some p) (sym (package_config_code db code e)) e

pub active_package_ok :
    (db : Db) (code : Text) (status : ℕ) {p : PackageConfig}
    → active_package db code status ≡ ok p
    → (package_config db code ≡ some p) × (p.is_active ≡ true)
active_package_ok db code status {p} e = elim (Option-cases (package_config db code)) [
  | inl gone ↦ ground arith
  | inr (x, found) ↦ elim (Bool-cases x.is_active) [
    | inl on ↦
        let same : x ≡ p = ground arith in (ground arith, subst (λ y. y.is_active ≡ true) same on)
    | inr off ↦ ground arith
  ]
]

-- A package that the test on a code lets through is on sale under that code.
pub sold :
    (db : Db) (code : Text) (status : ℕ) {p : PackageConfig}
    → active_package db code status ≡ ok p
    → (code ≡ p.code) × OnSale db p
sold db code status e =
    let (known, on) = active_package_ok db code status e in
    (sym (package_config_code db code known), (known_package db code known, on))

pub require_admin-ByAdmin :
    (env : Env) (req : Request) (db : Db) {u : User}
    → require_admin env.settings req db ≡ ok u
    → ByAdmin env req db
unfolding require_admin
require_admin-ByAdmin env req db {u} h = elim (Option-cases (current_user env.settings req db)) [
  | inl gone ↦ absurd (err_ok (rw (require_admin, gone) at h))
  | inr (x, found) ↦ elim (Bool-cases x.is_admin) [
    | inl yes_admin ↦ record { admin = x; signed_in = found; is_admin = yes_admin }
    | inr other ↦ absurd (err_ok (rw (require_admin, found, other) at h))
  ]
]

pub locked_event :
    (db : Db) (id : ℕ) {e : Event}
    → lock_commercial_event db id ≡ ok e
    → (find (event_has_id e.id) db.events ≡ some e) × (e.id ≡ id)
unfolding lock_commercial_event
locked_event db id {e} h =
    find_key (λ x. x.id) id db.events (or_raise_ok (find (event_has_id id) db.events) 404 h)

pub stored_order :
    (db : Db) (id : ℕ) {o : PackageOrder}
    → get_order db id ≡ some o
    → (find (order_has_id o.id) db.package_orders ≡ some o) × (o.id ≡ id)
unfolding get_order
stored_order db id found = find_key (λ x. x.id) id db.package_orders found

pub own_order_ok :
    (db : Db) (id : ℕ) (e : Event) (u : User) {o : PackageOrder}
    → own_order db id e u ≡ ok o
    → (find (order_has_id o.id) db.package_orders ≡ some o)
      × (o.event_id ≡ e.id)
      × (o.user_id ≡ u.id)
unfolding own_order
own_order_ok db id e u {o} h = elim (Option-cases (get_order db id)) [
  | inl gone ↦ ground arith
  | inr (x, found) ↦
      let same : x ≡ o = ground arith in
      (
        subst (λ y. find (order_has_id y.id) db.package_orders ≡ some y) same
            (stored_order db id found).0,
        ground arith,
        ground arith,
      )
]

pub resolved :
    (db : Db) (id : ℕ) {t : Unit {0}}
    → require_resolved_payments db id ≡ ok t
    → any (outstanding_for id) db.package_orders ≡ false
unfolding require_resolved_payments
resolved db id e = ground arith

-- The order `o` with another content, written back under its id.
pub rewritten :
    (db db' : Db) (o o' : PackageOrder)
    → find (order_has_id o.id) db.package_orders ≡ some o
    → o'.id ≡ o.id
    → o'.event_id ≡ o.event_id
    → db'.package_orders ≡ put (order_has_id o'.id) o' db.package_orders
    → Rewrites db db' o o'
rewritten db db' o o' found key place saved = record {
  found = found;
  same_id = key;
  same_event = place;
  written = saved ∙ ap (λ k. put (order_has_id k) o' db.package_orders) key;
}

-- The approval of an order, with its event put on the package.
pub granted :
    {Admin : Type 0} (db db' : Db) (o o' : PackageOrder) (e : Event) (p : PackageConfig) (at : ℕ)
    → Rewrites db db' o o'
    → SameTerms o o'
    → Grounds Admin db o
    → o'.status ≡ OrderStatus.approved
    → (find (event_has_id e.id) db.events ≡ some e) × (e.id ≡ o.event_id)
    → (o.package_code ≡ p.code) × OnSale db p
    → db'.events ≡ put (event_has_id e.id) (assign_package at p.code e) db.events
    → Change Admin db db'
granted db db' o o' e p at moved terms grounds to (found, place) sale saved =
    Change.grant o o' e p moved terms grounds to place sale (record {
      at = at;
      found = found;
      written =
          subst (λ c. db'.events ≡ put (event_has_id e.id) (assign_package at c e) db.events)
            (sym sale.0) saved;
    })

pub same_terms :
    (o o' : PackageOrder)
    → o'.package_code ≡ o.package_code
    → o'.amount_cents ≡ o.amount_cents
    → o'.currency ≡ o.currency
    → o'.user_id ≡ o.user_id
    → SameTerms o o'
same_terms o o' c a k u = record { code = c; price = a; currency = k; user = u }
