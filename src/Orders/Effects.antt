-- ===== src/Orders/Effects.antt =====
-- The specification of the commercial part: what one request may do to the orders and the events.
pub mod Rules
pub mod Host
pub mod Payments
pub mod Notify
pub mod Admin
use markmonica.Base.{
  ℕ, Bool, true, false, ◌≡◌, refl, ◌<◌, ◌≤◌, ◌⊎◌, List, [], ◌∷◌, ◌++◌, some, arith, ◌==◌,
}
use markmonica.Base.Tables.{find, put, any, count}
use markmonica.Base.Texts.{Text, text}
use markmonica.Model.{Db, User, Event, PackageConfig, PackageOrder, OrderStatus}
use markmonica.Http.{Request}
use markmonica.Accounts.{current_user}
use markmonica.Orders.{order_has_id, event_has_id, outstanding_for, closed}
use markmonica.Orders.Host.{Env}
use markmonica.Packages.{package_config}

-- The moves that grant nothing and start no payment: an order is cancelled or failed, or a payment
-- that came late is put aside.
abbrev pub may_close : OrderStatus → OrderStatus → Bool
may_close OrderStatus.pending OrderStatus.cancelled = true
may_close OrderStatus.awaiting_payment OrderStatus.cancelled = true
may_close OrderStatus.awaiting_payment OrderStatus.failed = true
may_close OrderStatus.cancelled OrderStatus.payment_review = true
may_close OrderStatus.failed OrderStatus.payment_review = true
may_close _ _ = false

-- The statuses from which an order is approved.
abbrev pub may_grant : OrderStatus → Bool
may_grant OrderStatus.pending = true
may_grant OrderStatus.awaiting_payment = true
may_grant OrderStatus.paid = true
may_grant OrderStatus.payment_review = true
may_grant _ = false

-- The row `o` of `db` becomes `o'`, under the same id and for the same event.
pub record Rewrites (db db' : Db) (o o' : PackageOrder) : Type 0 where
  pub found : find (order_has_id o.id) db.package_orders ≡ some o
  pub same_id : o'.id ≡ o.id
  pub same_event : o'.event_id ≡ o.event_id
  pub written : db'.package_orders ≡ put (order_has_id o.id) o' db.package_orders

-- The row `e` of `db` is written back on the package `code`, with nothing else changed but the
-- instant of the assignment.
pub record Assigns (db db' : Db) (e : Event) (code : Text) : Type 0 where
  pub at : ℕ
  pub found : find (event_has_id e.id) db.events ≡ some e
  pub written :
      db'.events
      ≡ put
          (event_has_id e.id)
          (record e { package_code = code; package_assigned_at = at })
          db.events

-- The package is on sale.
abbrev pub OnSale : Db → PackageConfig → Type 0
OnSale db p = (package_config db p.code ≡ some p) × (p.is_active ≡ true)

-- The request is one of a signed-in administrator.
pub record ByAdmin (env : Env) (req : Request) (db : Db) : Type 0 where
  pub admin : User
  pub signed_in : current_user env.settings req db ≡ some admin
  pub is_admin : admin.is_admin ≡ true

-- A host may move the stored event to the package: it is on sale, of a higher rank than the
-- event's own, and no payment of the event is outstanding.
pub record Offers (db : Db) (e : Event) (p : PackageConfig) : Type 0 where
  pub stored : find (event_has_id e.id) db.events ≡ some e
  pub on_sale : OnSale db p
  pub current : PackageConfig
  pub has : package_config db e.package_code ≡ some current
  pub higher : current.tier_rank < p.tier_rank
  pub clear : any (outstanding_for e.id) db.package_orders ≡ false

-- A pending order of the event for the package, at its price.
pub record Asks (e : Event) (p : PackageConfig) (o : PackageOrder) : Type 0 where
  pub of_event : o.event_id ≡ e.id
  pub code : o.package_code ≡ p.code
  pub price : o.amount_cents ≡ p.price_cents
  pub currency : o.currency ≡ p.currency
  pub pending : o.status ≡ OrderStatus.pending

-- What was ordered, by whom and at which price stays.
pub record SameTerms (o o' : PackageOrder) : Type 0 where
  pub code : o'.package_code ≡ o.package_code
  pub price : o'.amount_cents ≡ o.amount_cents
  pub currency : o'.currency ≡ o.currency
  pub user : o'.user_id ≡ o.user_id

-- Why an order may be approved. `Admin` holds where the request is an administrator's.
pub data Grounds (Admin : Type 0) (db : Db) (o : PackageOrder) : Type 0 where
  -- by hand, while no payment of the event is outstanding
  manual :
      Admin
      → o.status ≡ OrderStatus.pending
      → any (outstanding_for o.event_id) db.package_orders ≡ false
      → Grounds Admin db o
  -- by hand, after a review of the payment
  reviewed :
      Admin
      → (o.status ≡ OrderStatus.paid) ⊎ (o.status ≡ OrderStatus.payment_review)
      → Grounds Admin db o
  -- by the gateway, for the payment that was awaited
  awaited : o.status ≡ OrderStatus.awaiting_payment → Grounds Admin db o

-- Who may close an order: its payment is awaited, or it was closed before and a payment came late;
-- any other order only an administrator.
abbrev pub MayClose : Type 0 → PackageOrder → Type 0
MayClose Admin o = (o.status ≡ OrderStatus.awaiting_payment) ⊎ ((closed o.status ≡ true) ⊎ Admin)

pub data Change (Admin : Type 0) (db db' : Db) : Type 0 where
  nothing : db'.package_orders ≡ db.package_orders → db'.events ≡ db.events → Change Admin db db'
  -- a new event, on a package on sale that costs nothing
  create :
      (e : Event) (p : PackageConfig)
      → any (event_has_id e.id) db.events ≡ false
      → OnSale db p
      → p.payment_required ≡ false
      → e.package_code ≡ p.code
      → db'.package_orders ≡ db.package_orders
      → db'.events ≡ db.events ++ e ∷ []
      → Change Admin db db'
  -- a new event on the demo package, with its first order, for a package that is paid
  create_and_place :
      (e : Event) (o : PackageOrder) (p : PackageConfig)
      → any (event_has_id e.id) db.events ≡ false
      → e.package_code ≡ text "demo"
      → OnSale db p
      → p.payment_required ≡ true
      → Asks e p o
      → any (order_has_id o.id) db.package_orders ≡ false
      → db'.package_orders ≡ db.package_orders ++ o ∷ []
      → db'.events ≡ db.events ++ e ∷ []
      → Change Admin db db'
  -- a new pending order, for a package that is paid
  place :
      (e : Event) (o : PackageOrder) (p : PackageConfig)
      → Offers db e p
      → p.payment_required ≡ true
      → Asks e p o
      → any (order_has_id o.id) db.package_orders ≡ false
      → db'.package_orders ≡ db.package_orders ++ o ∷ []
      → db'.events ≡ db.events
      → Change Admin db db'
  -- a pending order for another package that is paid
  retarget :
      (e : Event) (o o' : PackageOrder) (p : PackageConfig)
      → Rewrites db db' o o'
      → o.status ≡ OrderStatus.pending
      → Offers db e p
      → p.payment_required ≡ true
      → Asks e p o'
      → db'.events ≡ db.events
      → Change Admin db db'
  -- a pending order with a price, for a package on sale, enters payment, while nothing is
  -- outstanding for its event
  checkout :
      (o o' : PackageOrder) (p : PackageConfig)
      → Rewrites db db' o o'
      → SameTerms o o'
      → o.status ≡ OrderStatus.pending
      → o'.status ≡ OrderStatus.awaiting_payment
      → any (outstanding_for o.event_id) db.package_orders ≡ false
      → (o.package_code ≡ p.code) × OnSale db p
      → 1 ≤ o.amount_cents
      → db'.events ≡ db.events
      → Change Admin db db'
  close :
      (o o' : PackageOrder)
      → Rewrites db db' o o'
      → SameTerms o o'
      → may_close o.status o'.status ≡ true
      → MayClose Admin o
      → db'.events ≡ db.events
      → Change Admin db db'
  -- an order for a package on sale is approved, and its event put on that package
  grant :
      (o o' : PackageOrder) (e : Event) (p : PackageConfig)
      → Rewrites db db' o o'
      → SameTerms o o'
      → Grounds Admin db o
      → o'.status ≡ OrderStatus.approved
      → e.id ≡ o.event_id
      → (o.package_code ≡ p.code) × OnSale db p
      → Assigns db db' e o.package_code
      → Change Admin db db'
  -- an event moves to a higher package that costs nothing
  assign :
      (e : Event) (p : PackageConfig)
      → Offers db e p
      → p.payment_required ≡ false
      → db'.package_orders ≡ db.package_orders
      → Assigns db db' e p.code
      → Change Admin db db'
  -- an administrator puts an event on a package on sale, while nothing is outstanding for it
  assign_by_admin :
      (e : Event) (p : PackageConfig)
      → Admin
      → OnSale db p
      → any (outstanding_for e.id) db.package_orders ≡ false
      → db'.package_orders ≡ db.package_orders
      → Assigns db db' e p.code
      → Change Admin db db'
