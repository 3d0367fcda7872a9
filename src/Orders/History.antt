-- ===== src/Orders/History.antt =====
-- The commercial part as a whole: every request that can touch orders or the packages of events,
-- and histories of such requests in any order.
pub mod Invariants
pub mod Lifecycle
pub mod Holds
use markmonica.Base.{ℕ, ◌≡◌, refl, ◌≤◌, Option, List, [], ◌∷◌, arith}
use markmonica.Base.Tables.{count}
use markmonica.Base.Texts.{Text}
use markmonica.Model.{Db}
use markmonica.Http.{Result, Request, Response, after}
use markmonica.Http.Post.{after_holds}
use markmonica.Payments.Itn.{Form}
use markmonica.Payments.Amount.{Decimal}
use markmonica.Orders.Host.{Env, create_event, package_request}
use markmonica.Orders.Checkout.{start_checkout, cancel_host_order}
use markmonica.Orders.Notify.{payfast_notify}
use markmonica.Orders.Admin.{
  approve_order, cancel_order, fail_order, activate_reviewed_payment, event_package,
}
use markmonica.Orders.Effects.{Change, ByAdmin}
use markmonica.Orders.Effects.Host.{UniqueOrders, create_event-Change, package_request-Change}
use markmonica.Orders.Effects.Payments.{start_checkout-Change, cancel_host_order-Change}
use markmonica.Orders.Effects.Notify.{payfast_notify-Change}
use markmonica.Orders.Effects.Admin.{
  approve_order-Change, cancel_order-Change, fail_order-Change, activate_reviewed_payment-Change,
  event_package-Change,
}

-- A request with what its path and its form carry; the last numbers and the token of a call are
-- the fresh ids that it draws.
pub data Call : Type 0 where
  creates_event : Text → Text → Text → ℕ → ℕ → Text → Call
  requests_package : Option ℕ → Text → ℕ → Call
  starts_checkout : Option ℕ → ℕ → Call
  cancels_order : Option ℕ → ℕ → ℕ → Call
  notifies : Form → ℕ → Call
  admin_approves admin_cancels admin_fails admin_activates : ℕ → Text → ℕ → Call
  admin_assigns : ℕ → Text → Call

module _ (env : Env) (decimal : Text → Option Decimal) where
  unfoldable pub handle : Request → Db → Call → Result (Response × Db)
  handle req db (creates_event title code date event_id id token) =
      create_event env req db title code date event_id id token
  handle req db (requests_package event_id code id) = package_request env req db event_id code id
  handle req db (starts_checkout event_id id) = start_checkout env req db event_id id
  handle req db (cancels_order event_id id activity_id) =
      cancel_host_order env req db event_id id activity_id
  handle req db (notifies form activity_id) = payfast_notify env decimal req.now activity_id db form
  handle req db (admin_approves id reason activity_id) =
      approve_order env req db id reason activity_id
  handle req db (admin_cancels id reason activity_id) =
      cancel_order env req db id reason activity_id
  handle req db (admin_fails id reason activity_id) = fail_order env req db id reason activity_id
  handle req db (admin_activates id reason activity_id) =
      activate_reviewed_payment env req db id reason activity_id
  handle req db (admin_assigns event_id code) = event_package env req db event_id code

  -- A request that raises leaves the database as it was.
  unfoldable pub step : Db → Request × Call → Db
  step db (req, call) = after db (handle req db call)

  unfoldable pub run : Db → List (Request × Call) → Db
  run db [] = db
  run db (c ∷ cs) = run (step db c) cs

  -- Where ids of orders are unique, whatever a request does to orders and events, on every branch
  -- of every handler, is one of these changes: nothing; a new event, on a package on sale that is
  -- free, or on the demo package with a pending order for one that is paid; for a stored event with
  -- no payment outstanding and a package on sale of a higher rank than its own, the event moves to
  -- it where it is free, and a pending order at its price is made or reused where it is paid; a
  -- pending order with a price enters payment, while none is outstanding for its event; an order is
  -- closed along `may_close`, one that neither awaits its payment nor was closed before only by a
  -- signed-in administrator; an order for a package on sale is approved, with its event put on that
  -- package, by such an administrator if it is pending and nothing is outstanding for its event, by
  -- one if it is paid or under review, and else only if it awaited its payment; or such an
  -- administrator puts an event with nothing outstanding on a package on sale. An order that is
  -- rewritten keeps its id and event and, unless it is reused, its package, price, currency and
  -- user.
  pub step-Change :
      (db : Db) (c : Request × Call) → UniqueOrders db → Change (ByAdmin env c.0 db) db (step db c)
  unfolding step handle
  step-Change db (req, creates_event title code date event_id id token) u =
      after_holds db _ (Change.nothing refl refl)
        (create_event-Change env req db date event_id id token title code)
  step-Change db (req, requests_package event_id code id) u =
      after_holds db _ (Change.nothing refl refl)
        (package_request-Change env req db event_id code id u)
  step-Change db (req, starts_checkout event_id id) u =
      after_holds db _ (Change.nothing refl refl) (start_checkout-Change env req db event_id id)
  step-Change db (req, cancels_order event_id id activity_id) u =
      after_holds db _ (Change.nothing refl refl)
        (cancel_host_order-Change env req db event_id id activity_id)
  step-Change db (req, notifies form activity_id) u =
      after_holds db _ (Change.nothing refl refl)
        (payfast_notify-Change env decimal req.now activity_id db form)
  step-Change db (req, admin_approves id reason activity_id) u =
      after_holds db _ (Change.nothing refl refl)
        (approve_order-Change env req db id reason activity_id)
  step-Change db (req, admin_cancels id reason activity_id) u =
      after_holds db _ (Change.nothing refl refl)
        (cancel_order-Change env req db id reason activity_id)
  step-Change db (req, admin_fails id reason activity_id) u =
      after_holds db _ (Change.nothing refl refl)
        (fail_order-Change env req db id reason activity_id)
  step-Change db (req, admin_activates id reason activity_id) u =
      after_holds db _ (Change.nothing refl refl)
        (activate_reviewed_payment-Change env req db id reason activity_id)
  step-Change db (req, admin_assigns event_id code) u =
      after_holds db _ (Change.nothing refl refl) (event_package-Change env req db event_id code)
