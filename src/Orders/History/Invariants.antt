-- ===== src/Orders/History/Invariants.antt =====
-- What holds after any history of commercial requests.
use markmonica.Base.{
  ℕ, ◌≤◌, ◌≡◌, Bool, true, false, ◌&&◌, Option, List, [], ◌∷◌, ◌==◌, bit, arith, ap, inl, inr,
  Bool-cases, ◌++◌,
}
use markmonica.Base.Tables.{
  put, any, count, count-put, count-put_le, count-put-false, any-false, count_mono, count-snoc,
}
use markmonica.Base.Texts.{Text}
use markmonica.Model.{Db, PackageOrder, OrderStatus}
use markmonica.Http.{Request}
use markmonica.Payments.Amount.{Decimal}
use markmonica.Orders.{order_has_id, outstanding_for, is_awaiting}
use markmonica.Orders.Host.{Env}
use markmonica.Orders.Effects.{Change, Rewrites, may_close}
use markmonica.Orders.Effects.Host.{UniqueOrders}
use markmonica.Orders.History.{Call, step, run, step-Change}

abbrev pub awaiting_for : ℕ → PackageOrder → Bool
awaiting_for event_id o = o.event_id == event_id && is_awaiting o.status

-- Ids are unique, and an event has at most one order in payment.
pub record IsValid (db : Db) : Type 0 where
  pub unique : UniqueOrders db
  pub one_payment : (event_id : ℕ) → count (awaiting_for event_id) db.package_orders ≤ 1

not_awaiting : (k : ℕ) (o : PackageOrder) → is_awaiting o.status ≡ false → awaiting_for k o ≡ false
not_awaiting k o h = ground arith

closed_not_awaiting : (s s' : OrderStatus) → may_close s s' ≡ true → is_awaiting s' ≡ false
closed_not_awaiting s s' h = ground arith

module _ {db db' : Db} (v : IsValid db) where
  -- A row rewritten under its id, with a status that is not in payment.
  rewrite-IsValid :
      {o o' : PackageOrder}
      → Rewrites db db' o o'
      → ((k : ℕ) → count (awaiting_for k) (put (order_has_id o.id) o' db.package_orders) ≤ 1)
      → IsValid db'
  rewrite-IsValid {o} {o'} r payment = record {
    unique = λ id.
        let same : (o'.id == id) ≡ (o.id == id) = ap (λ k. k == id) r.same_id in
        rw r.written (
          omega (
            arith,
            v.unique id,
            count-put (order_has_id id) (order_has_id o.id) o' db.package_orders r.found,
            ap bit same,
          ));
    one_payment = λ k. rw r.written (payment k);
  }

  settle-IsValid :
      {o o' : PackageOrder} → Rewrites db db' o o' → is_awaiting o'.status ≡ false → IsValid db'
  settle-IsValid {o} {o'} r idle = rewrite-IsValid r λ k. omega (
    arith,
    v.one_payment k,
    count-put-false (awaiting_for k) (order_has_id o.id) o' db.package_orders
        (not_awaiting k o' idle),
  )

  same-IsValid : db'.package_orders ≡ db.package_orders → IsValid db'
  same-IsValid e = record {
    unique = λ id. rw e (v.unique id);
    one_payment = λ k. rw e (v.one_payment k);
  }

  -- A payment begins: nothing was outstanding for the event, and other events are not concerned.
  checkout-IsValid :
      {o o' : PackageOrder}
      → Rewrites db db' o o'
      → any (outstanding_for o.event_id) db.package_orders ≡ false
      → IsValid db'
  checkout-IsValid {o} {o'} r clear = rewrite-IsValid r λ k. elim (Bool-cases (o.event_id == k)) [
    | inl here ↦
        let same : o.event_id ≡ k = ground arith in
        let none_left = any-false (outstanding_for o.event_id) db.package_orders clear in
        let fewer =
          count_mono (awaiting_for o.event_id) (outstanding_for o.event_id) (λ x h. ground arith)
            db.package_orders in
        rw (← same) (
          omega (
            arith,
            none_left,
            fewer,
            count-put_le (awaiting_for o.event_id) (order_has_id o.id) o' db.package_orders,
          ))
    | inr elsewhere ↦
        let apart : awaiting_for k o' ≡ false = rw (r.same_event, elsewhere) in
        omega (
          arith,
          v.one_payment k,
          count-put-false (awaiting_for k) (order_has_id o.id) o' db.package_orders apart,
        )
  ]

  place-IsValid :
      (o : PackageOrder)
      → o.status ≡ OrderStatus.pending
      → any (order_has_id o.id) db.package_orders ≡ false
      → db'.package_orders ≡ db.package_orders ++ o ∷ []
      → IsValid db'
  place-IsValid o pending fresh e = record {
    unique = λ id.
        rw (e, count-snoc)
          (elim (Bool-cases (o.id == id)) [
            | inl here ↦
                let same : o.id ≡ id = ground arith in
                let none_left = any-false (order_has_id o.id) db.package_orders fresh in
                rw (← same) (ground (arith, none_left))
            | inr elsewhere ↦ rw elsewhere (omega (arith, v.unique id))
          ]);
    one_payment = λ k.
        let idle : is_awaiting o.status ≡ false = rw pending in
        rw (e, count-snoc, not_awaiting k o idle) (omega (arith, v.one_payment k));
  }

  -- Every change that the specification allows keeps the invariant.
  pub Change-IsValid : {Admin : Type 0} → Change Admin db db' → IsValid db'
  Change-IsValid (Change.nothing e _) = same-IsValid e
  Change-IsValid (Change.create _ _ _ _ _ _ e _) = same-IsValid e
  Change-IsValid (Change.create_and_place _ o _ _ _ _ _ asks fresh e _) =
      place-IsValid o asks.pending fresh e
  Change-IsValid (Change.place _ o _ _ _ asks fresh e _) = place-IsValid o asks.pending fresh e
  Change-IsValid (Change.retarget _ o o' _ r _ _ _ asks _) = settle-IsValid r (rw asks.pending)
  Change-IsValid (Change.checkout o o' _ r _ _ _ clear _ _ _) = checkout-IsValid r clear
  Change-IsValid (Change.close o o' r _ allowed _ _) =
      settle-IsValid r (closed_not_awaiting o.status o'.status allowed)
  Change-IsValid (Change.grant o o' _ _ r _ _ approved _ _ _) = settle-IsValid r (rw approved)
  Change-IsValid (Change.assign _ _ _ _ e _) = same-IsValid e
  Change-IsValid (Change.assign_by_admin _ _ _ _ _ e _) = same-IsValid e

module _ (env : Env) (decimal : Text → Option Decimal) where
  pub step-IsValid : (db : Db) (c : Request × Call) → IsValid db → IsValid (step env decimal db c)
  step-IsValid db c v = Change-IsValid v (step-Change env decimal db c v.unique)

  -- From a valid database, after any history of requests by hosts, the gateway and
  -- administrators in any order, ids of orders are unique and no event has two orders that
  -- await payment at once.
  pub run-IsValid :
      (db : Db) (cs : List (Request × Call)) → IsValid db → IsValid (run env decimal db cs)
  unfolding run
  run-IsValid db [] v = v
  run-IsValid db (c ∷ cs) v = run-IsValid (step env decimal db c) cs (step-IsValid db c v)
