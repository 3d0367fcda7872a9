-- ===== src/Orders/History/Holds.antt =====
-- The request after a late payment: until the review is resolved, it does not change the package of
-- the event but by an approval on the grounds of a payment.
use mathlib.Core.Path.{subst}
use markmonica.Base.{
  clash, ==_refl, ℕ, ◌==◌, ◌≡◌, refl, sym, ap, ◌∙◌, ◌⊎◌, inl, inr, true, false, Option, some, [],
  ◌∷◌, ◌++◌, arith, Bool-cases,
}
use markmonica.Base.Tables.{find, any, find-put, find-put_other, find-append}
use markmonica.Base.Texts.{Text, text, opt_text_eq}
use markmonica.Model.{Db, Event, PackageOrder, OrderStatus}
use markmonica.Http.{Result, ok, Request}
use markmonica.Http.Post.{Yields, yields}
use markmonica.Payments.Itn.{Form, form_get}
use markmonica.Payments.Amount.{Decimal}
use markmonica.Orders.{get_order, order_has_id, event_has_id, outstanding_for, closed}
use markmonica.Orders.Host.{Env}
use markmonica.Orders.Notify.{settle}
use markmonica.Orders.Notify.Late.{settle_late}
use markmonica.Orders.Notify.Upgrade.{OrderBecame}
use markmonica.Orders.Effects.{Change, Rewrites, Assigns, Grounds, ByAdmin}
use markmonica.Orders.Effects.Notify.{settle-Change}
use markmonica.Orders.History.{Call, step, step-Change}
use markmonica.Orders.History.Invariants.{IsValid, Change-IsValid}

-- The grounds of a payment: an administrator's review of one that came in, or the gateway's word
-- on one that was awaited.
pub data PaymentGrounds (Admin : Type 0) (o : PackageOrder) : Type 0 where
  reviewed :
      Admin
      → (o.status ≡ OrderStatus.paid) ⊎ (o.status ≡ OrderStatus.payment_review)
      → PaymentGrounds Admin o
  awaited : o.status ≡ OrderStatus.awaiting_payment → PaymentGrounds Admin o

-- The event keeps its package, or one of its orders was approved on the grounds of a payment.
pub data Held (Admin : Type 0) (db db' : Db) (x : Event) : Type 0 where
  kept :
      (x' : Event)
      → find (event_has_id x.id) db'.events ≡ some x'
      → x'.package_code ≡ x.package_code
      → Held Admin db db' x
  approved :
      (o o' : PackageOrder)
      → get_order db o.id ≡ some o
      → o.event_id ≡ x.id
      → PaymentGrounds Admin o
      → get_order db' o.id ≡ some o'
      → o'.status ≡ OrderStatus.approved
      → Held Admin db db' x

module _ (db : Db) (x : Event) (blocks : any (outstanding_for x.id) db.package_orders ≡ true) where
  not_clear : {k : ℕ} → k ≡ x.id → any (outstanding_for k) db.package_orders ≡ false → ⊥
  not_clear same clear =
      clash blocks (subst (λ n. any (outstanding_for n) db.package_orders ≡ false) same clear)

  Grounds-PaymentGrounds :
      {Admin : Type 0} {o : PackageOrder}
      → o.event_id ≡ x.id
      → Grounds Admin db o
      → PaymentGrounds Admin o
  Grounds-PaymentGrounds same (Grounds.manual _ _ clear) = absurd (not_clear same clear)
  Grounds-PaymentGrounds same (Grounds.reviewed admin status) = PaymentGrounds.reviewed admin status
  Grounds-PaymentGrounds same (Grounds.awaited status) = PaymentGrounds.awaited status

module _ {Admin : Type 0} {db db' : Db} (x : Event)
    (found : find (event_has_id x.id) db.events ≡ some x) where
  same-Held : db'.events ≡ db.events → Held Admin db db' x
  same-Held e = kept x (rw e found) refl

  added-Held : (y : Event) → db'.events ≡ db.events ++ y ∷ [] → Held Admin db db' x
  added-Held y e = kept x (rw e (find-append (event_has_id x.id) db.events (y ∷ []) found)) refl

  -- An assignment to another event.
  other-Held :
      {e : Event} {code : Text}
      → Assigns db db' e code
      → (e.id == x.id) ≡ false
      → Held Admin db db' x
  other-Held {e} {code} a apart =
      let y = record e { package_code = code; package_assigned_at = a.at } in
      kept x
        (rw a.written (
          find-put_other (event_has_id x.id) (event_has_id e.id) y db.events (λ z h. ground arith)
            apart
          ∙ found))
        refl

  module _ (blocks : any (outstanding_for x.id) db.package_orders ≡ true) where
    refused-Held :
        {e : Event} {code : Text}
        → any (outstanding_for e.id) db.package_orders ≡ false
        → Assigns db db' e code
        → Held Admin db db' x
    refused-Held {e} clear a = elim (Bool-cases (e.id == x.id)) [
      | inl here ↦
          let same : e.id ≡ x.id = ground arith in absurd (not_clear db x blocks same clear)
      | inr elsewhere ↦ other-Held a elsewhere
    ]

    granted-Held :
        {o o' : PackageOrder} {e : Event}
        → Rewrites db db' o o'
        → Grounds Admin db o
        → o'.status ≡ OrderStatus.approved
        → e.id ≡ o.event_id
        → Assigns db db' e o.package_code
        → Held Admin db db' x
    unfolding get_order
    granted-Held {o} {o'} {e} r grounds status place a = elim (Bool-cases (e.id == x.id)) [
      | inl here ↦
          let same : o.event_id ≡ x.id = ground arith in
          let keyed : (o'.id == o.id) ≡ true = rw r.same_id (==_refl o.id) in
          let stored = find-put (order_has_id o.id) o' db.package_orders r.found keyed in
          approved o o' r.found same (Grounds-PaymentGrounds db x blocks same grounds)
            (rw r.written stored) status
      | inr elsewhere ↦ other-Held a elsewhere
    ]

    Change-Held : Change Admin db db' → Held Admin db db' x
    Change-Held (Change.nothing _ e) = same-Held e
    Change-Held (Change.create y _ _ _ _ _ _ e) = added-Held y e
    Change-Held (Change.create_and_place y _ _ _ _ _ _ _ _ _ e) = added-Held y e
    Change-Held (Change.place _ _ _ _ _ _ _ _ e) = same-Held e
    Change-Held (Change.retarget _ _ _ _ _ _ _ _ _ e) = same-Held e
    Change-Held (Change.checkout _ _ _ _ _ _ _ _ _ _ e) = same-Held e
    Change-Held (Change.close _ _ _ _ _ _ e) = same-Held e
    Change-Held (Change.grant _ _ _ _ r _ grounds status place _ a) =
        granted-Held r grounds status place a
    Change-Held (Change.assign _ _ offers _ _ a) = refused-Held offers.clear a
    Change-Held (Change.assign_by_admin _ _ _ _ clear _ a) = refused-Held clear a

Yields-ok : {P : Db → Type 0} {r : Result Db} {db : Db} → Yields P r → r ≡ ok db → P db
Yields-ok {P} (yields p) e = subst P (ok_db e) p
  where
    ok_db : {a b : Db} → ◌≡◌ {A = Result Db} (ok a) (ok b) → a ≡ b
    ok_db h = cc
Yields-ok Yields.fails e = cc

-- In a valid database, the stage of the gateway's notification that settles a complete payment of a
-- stored order that is cancelled or failed commits, changes no event, and puts the order under review. The next request, whichever it is,
-- then leaves the event on its package, unless it approves one of the event's orders on the
-- grounds of a payment: an administrator's request for an order that is paid or under review, or
-- any for an order that awaited its payment.
pub late_payment_holds :
    (env : Env) (decimal : Text → Option Decimal) (now activity_id : ℕ) (db : Db) (o : PackageOrder)
    (e : Event) (form : Form) (c : Request × Call)
    → IsValid db
    → get_order db o.id ≡ some o
    → find (event_has_id e.id) db.events ≡ some e
    → e.id ≡ o.event_id
    → closed o.status ≡ true
    → opt_text_eq (form_get form (text "payment_status")) (some (text "COMPLETE")) ≡ true
    → (db' : Db) × (settle now activity_id db o e form ≡ ok db')
      × (db'.events ≡ db.events)
      × OrderBecame db' o.id OrderStatus.payment_review
      × Held (ByAdmin env c.0 db') db' (step env decimal db' c) e
unfolding get_order
late_payment_holds env decimal now i db o e form c v found place same late complete =
    let aside = settle_late now i db o e form found late complete in
    let made : Change ⊥ db aside.db' =
      Yields-ok (settle-Change now i db o e found (place, same) form) aside.committed in
    let valid = Change-IsValid v made in
    let there : find (event_has_id e.id) aside.db'.events ≡ some e =
      ap (λ xs. find (event_has_id e.id) xs) aside.same_events ∙ place in
    let blocks : any (outstanding_for e.id) aside.db'.package_orders ≡ true =
      subst (λ k. any (outstanding_for k) aside.db'.package_orders ≡ true) (sym same)
        aside.outstanding in
    (
      aside.db',
      aside.committed,
      aside.same_events,
      aside.review,
      Change-Held e there blocks (step-Change env decimal aside.db' c valid.unique),
    )
