-- ===== src/Orders/History/Lifecycle.antt =====
-- The life of one order over any history of requests: it is never lost, and its status only moves
-- along the machine below.
use mathlib.Core.Path.{subst, subst₂}
use markmonica.Base.Texts.{Text}
use markmonica.Base.{
  ==_refl, ap, ◌∙◌, ◌≢◌, ℕ, ◌≡◌, refl, sym, true, false, Option, some, List, [], ◌∷◌, ◌++◌, ◌==◌,
  arith, Bool-cases, inl, inr,
}
use markmonica.Base.Tables.{find, put, find-put, find-put_other, find-append}
use markmonica.Model.{Db, PackageOrder, OrderStatus}
use markmonica.Http.{Request}
use markmonica.Payments.Amount.{Decimal}
use markmonica.Orders.{order_has_id, get_order}
use markmonica.Orders.Host.{Env}
use markmonica.Orders.Effects.{Change, Rewrites, Grounds, may_close, may_grant}
use markmonica.Orders.History.{Call, step, run, step-Change}
use markmonica.Orders.History.Invariants.{IsValid, step-IsValid}

-- One move of an order.
pub data Moves : OrderStatus → OrderStatus → Type 0 where
  pays : Moves OrderStatus.pending OrderStatus.awaiting_payment
  closes : {s t : OrderStatus} → may_close s t ≡ true → Moves s t
  grants : {s : OrderStatus} → may_grant s ≡ true → Moves s OrderStatus.approved

-- Any number of moves.
pub data Leads : OrderStatus → OrderStatus → Type 0 where
  stays : {s : OrderStatus} → Leads s s
  moves : {s t u : OrderStatus} → Moves s t → Leads t u → Leads s u

Leads-trans : {s t u : OrderStatus} → Leads s t → Leads t u → Leads s u
Leads-trans stays k = k
Leads-trans (moves m h) k = moves m (Leads-trans h k)

no_move : {s t : OrderStatus} → Moves s t → s ≢ OrderStatus.approved
no_move pays e = cc
no_move (closes {s} {t} h) e = close_apart s t h e
  where
    close_apart : (s t : OrderStatus) → may_close s t ≡ true → s ≢ OrderStatus.approved
    close_apart s t h e = ground arith
no_move (grants {s} h) e = grant_apart s h e
  where
    grant_apart : (s : OrderStatus) → may_grant s ≡ true → s ≢ OrderStatus.approved
    grant_apart s h e = ground arith

Leads-final : {s t : OrderStatus} → Leads s t → s ≡ OrderStatus.approved → t ≡ OrderStatus.approved
Leads-final stays e = e
Leads-final (moves m h) e = absurd (no_move m e)

some_inj : {x y : PackageOrder} → ◌≡◌ {A = Option PackageOrder} (some x) (some y) → x ≡ y
some_inj e = cc

Grounds-may_grant :
    {Admin : Type 0} {db : Db} {o : PackageOrder} → Grounds Admin db o → may_grant o.status ≡ true
Grounds-may_grant (Grounds.manual _ pending _) = rw pending
Grounds-may_grant (Grounds.reviewed _ (inl paid)) = rw paid
Grounds-may_grant (Grounds.reviewed _ (inr review)) = rw review
Grounds-may_grant (Grounds.awaited awaits) = rw awaits

-- What became of an order: it is still there under its id, for the same event.
pub record Became (o : PackageOrder) (id : ℕ) (db : Db) : Type 0 where
  pub now : PackageOrder
  pub found : get_order db id ≡ some now
  pub same_event : now.event_id ≡ o.event_id
  pub led : Leads o.status now.status

module _ (db db' : Db) (id : ℕ) (o : PackageOrder) (found : get_order db id ≡ some o) where
  untouched : db'.package_orders ≡ db.package_orders → Became o id db'
  unfolding get_order
  untouched e = record { now = o; found = rw e found; same_event = refl; led = stays }

  placed : (x : PackageOrder) → db'.package_orders ≡ db.package_orders ++ x ∷ [] → Became o id db'
  unfolding get_order
  placed x e = record {
    now = o;
    found = rw e (find-append (order_has_id id) db.package_orders (x ∷ []) found);
    same_event = refl;
    led = stays;
  }

  rewritten_order :
      {x x' : PackageOrder} → Rewrites db db' x x' → Leads x.status x'.status → Became o id db'
  unfolding get_order
  rewritten_order {x} {x'} r led = elim (Bool-cases (x.id == id)) [
    | inl here ↦
        let same : x.id ≡ id = ground arith in
        let keyed : (x'.id == x.id) ≡ true = rw r.same_id (==_refl x.id) in
        let table = put (order_has_id x.id) x' db.package_orders in
        let stored : find (order_has_id id) table ≡ some x' =
          subst (λ k. find (order_has_id k) table ≡ some x') same
            (find-put (order_has_id x.id) x' db.package_orders r.found keyed) in
        let row : x ≡ o = some_inj (
          sym (subst (λ k. find (order_has_id k) db.package_orders ≡ some x) same r.found)
          ∙ found) in
        record {
          now = x';
          found = rw r.written stored;
          same_event = r.same_event ∙ ap (λ y. y.event_id) row;
          led = subst (λ y. Leads y.status x'.status) row led;
        }
    | inr elsewhere ↦
        let apart : (x'.id == id) ≡ false = rw r.same_id elsewhere in
        record {
          now = o;
          found = rw r.written (
              find-put_other (order_has_id id) (order_has_id x.id) x' db.package_orders
                (λ z h. ground arith) apart
              ∙ found);
          same_event = refl;
          led = stays;
        }
  ]

  Change-Became : {Admin : Type 0} → Change Admin db db' → Became o id db'
  Change-Became (Change.nothing e _) = untouched e
  Change-Became (Change.create _ _ _ _ _ _ e _) = untouched e
  Change-Became (Change.create_and_place _ x _ _ _ _ _ _ _ e _) = placed x e
  Change-Became (Change.place _ x _ _ _ _ _ e _) = placed x e
  Change-Became (Change.retarget _ x x' _ r was _ _ asks _) = rewritten_order r (
      subst (λ s. Leads s x'.status) (sym was)
        (subst (λ s. Leads OrderStatus.pending s) (sym asks.pending) stays))
  Change-Became (Change.checkout x x' _ r _ was is _ _ _ _) =
      rewritten_order r (subst₂ Leads (sym was) (sym is) (moves pays stays))
  Change-Became (Change.close x x' r _ allowed _ _) =
      rewritten_order r (moves (closes allowed) stays)
  Change-Became (Change.grant x x' _ _ r _ grounds approved _ _ _) = rewritten_order r (
      subst (λ s. Leads x.status s) (sym approved)
        (moves (grants (Grounds-may_grant grounds)) stays))
  Change-Became (Change.assign _ _ _ _ e _) = untouched e
  Change-Became (Change.assign_by_admin _ _ _ _ _ e _) = untouched e

module _ (env : Env) (decimal : Text → Option Decimal) where
  -- From a valid database, over any history of requests, a stored order stays under its id and
  -- with its event, and its status changes along the moves of `Moves` only.
  pub run-Became :
      (db : Db) (cs : List (Request × Call)) (id : ℕ) {o : PackageOrder}
      → IsValid db
      → get_order db id ≡ some o
      → Became o id (run env decimal db cs)
  unfolding run
  run-Became db [] id {o} v found = record {
    now = o;
    found = found;
    same_event = refl;
    led = stays;
  }
  run-Became db (c ∷ cs) id {o} v found =
      let b =
        Change-Became db (step env decimal db c) id o found
          (step-Change env decimal db c v.unique) in
      let rest =
        run-Became (step env decimal db c) cs id {o = b.now} (step-IsValid env decimal db c v)
          b.found in
      record {
        now = rest.now;
        found = rest.found;
        same_event = rest.same_event ∙ b.same_event;
        led = Leads-trans b.led rest.led;
      }

  -- From a valid database, a stored order that is approved is still there, for the same event
  -- and approved, after any history of requests.
  pub approved_final :
      (db : Db) (cs : List (Request × Call)) (id : ℕ) {o : PackageOrder}
      → IsValid db
      → get_order db id ≡ some o
      → o.status ≡ OrderStatus.approved
      → (o' : PackageOrder) × (get_order (run env decimal db cs) id ≡ some o')
        × (o'.event_id ≡ o.event_id)
        × (o'.status ≡ OrderStatus.approved)
  approved_final db cs id {o} v found approved =
      let b = run-Became db cs id v found in
      (b.now, b.found, b.same_event, Leads-final b.led approved)
