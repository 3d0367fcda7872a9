-- ===== src/Orders/Host.antt =====
-- What a host does with the packages of an event (app/main.py): `create_event`, `package_request`,
-- `checkout_page`, `start_checkout`, `cancel_host_order`, and the browser's way back from the
-- gateway. The ids that `uuid4` draws are arguments.
use markmonica.Base.{
  ℕ, Bool, false, not, ◌||◌, Option, none, some, [], ◌∷◌, ◌++◌, leb, ◌==◌, if◌then◌else◌,
}
use markmonica.Base.Tables.{any, latest}
use markmonica.Base.Texts.{Text, text, text_eq, strip, is_empty}
use markmonica.Model.{Db, User, Event, EventStatus, PackageConfig, PackageOrder, OrderStatus}
use markmonica.Http.{
  Result, ok, err, http, unhandled, ◌>>=◌, ◌>>◌, raise_if, or_raise, Request, Response, Location,
  redirect,
}
use markmonica.Accounts.{Settings, require_same_origin, current_user, event_for_owner}
use markmonica.Packages.{package_config}
use markmonica.Names.{slugify}
use markmonica.Vault.{Fernet}
use markmonica.Payments.Itn.{Gateway}
use markmonica.Orders.{
  save_order, save_event, add_order, lock_commercial_event, require_resolved_payments,
}

-- What the handlers share: settings, the gateway and the cipher.
pub record Env : Type 0 where
  pub settings : Settings
  pub gateway : Gateway
  pub vault : Option Fernet

-- `if user is None: return RedirectResponse("/login", 303)`
abbrev pub logged_in : Env → Request → Db → (User → Result (Response × Db)) → Result (Response × Db)
logged_in env req db body = elim (current_user env.settings req db) [
  | none ↦ ok (redirect Location.login, db)
  | some user ↦ body user
]

-- `if package is None or not package.is_active: raise HTTPException(code)`
abbrev pub active_package : Db → Text → ℕ → Result PackageConfig
active_package db code status = elim (package_config db code) [
  | none ↦ err (http status)
  | some p ↦ if p.is_active then ok p else err (http status)
]

-- The defaults of the columns are those of `Event` in app/models.py.
abbrev pub new_event : ℕ → ℕ → User → Text → Text → Option ℕ → Text → Event
new_event now id user slug title event_date code = record {
  id = id;
  owner_id = user.id;
  slug = slug;
  title = title;
  event_date = event_date;
  status = EventStatus.draft;
  package_code = code;
  package_assigned_at = now;
  gallery_visibility = text "approved";
  welcome_message = none;
  thank_you_message = none;
  theme = text "classic";
  accent_color = text "#7c5cff";
  guest_font = text "default";
  guest_gallery_enabled = false;
  cover_object_key = none;
  cover_content_type = none;
  created_at = now;
}

abbrev pub new_order : ℕ → ℕ → ℕ → User → PackageConfig → Text → PackageOrder
new_order now id event_id user p source = record {
  id = id;
  event_id = event_id;
  user_id = user.id;
  package_code = p.code;
  status = OrderStatus.pending;
  source = source;
  provider = none;
  provider_reference = none;
  amount_cents = p.price_cents;
  currency = p.currency;
  created_at = now;
  updated_at = now;
}

abbrev pub event_taken : Event → Event → Bool
event_taken e x = x.id == e.id || text_eq x.slug e.slug

-- `db.add(event)` and its flush: the primary key and the unique slug refuse a duplicate.
unfoldable pub add_event : Event → Db → Result Db
add_event e db =
    if any (event_taken e) db.events
    then err unhandled
    else ok (record db { events = db.events ++ e ∷ [] })

-- `date.fromisoformat(event_date) if event_date else None`, None where it raises.
abbrev pub read_date : Env → Text → Option ℕ
read_date env t = if is_empty t then none else env.settings.parse_date t

abbrev pub demo_or : PackageConfig → Text
demo_or p = if not p.payment_required then p.code else text "demo"

-- The part of `create_event` below its checks of the form.
unfoldable pub create_event_on :
    Env → Request → Db → User → Text → PackageConfig → Text → ℕ → ℕ → Text → Result (Response × Db)
create_event_on env req db user title p event_date event_id order_id token = do
  assigned ← or_raise (package_config db (demo_or p)) 503
  let e =
      new_event req.now event_id user (slugify title ++ text "-" ++ token) title
        (read_date env event_date) (demo_or p)
  db' ← add_event e db
  if not p.payment_required then ok (redirect (Location.event event_id), db') else do
    db'' ← add_order (new_order req.now order_id event_id user p (text "event_creation")) db'
    ok (redirect (Location.checkout event_id order_id), db'')

unfoldable pub create_event :
    Env → Request → Db → Text → Text → Text → ℕ → ℕ → Text → Result (Response × Db)
create_event env req db title package_code event_date event_id order_id token =
    require_same_origin env.settings req
    >> logged_in env req db (λ user.
      if is_empty (strip title) then ok (redirect Location.dashboard, db) else do
        p ← active_package db package_code 400
        create_event_on env req db user (strip title) p event_date event_id order_id token)

abbrev pub pending_for : ℕ → PackageOrder → Bool
pending_for event_id o = elim o.status [ OrderStatus.pending ↦ o.event_id == event_id | _ ↦ false ]

abbrev pub retarget : ℕ → PackageConfig → PackageOrder → PackageOrder
retarget now p o = record o {
  package_code = p.code;
  amount_cents = p.price_cents;
  currency = p.currency;
  updated_at = now;
}

-- The end of `package_request`: the latest pending order is reused, or one is made.
unfoldable pub place_order : ℕ → Db → User → Event → PackageConfig → ℕ → Result (Response × Db)
place_order now db user e p order_id =
    elim (latest (λ o. o.created_at) (pending_for e.id) db.package_orders) [
      | some o ↦ ok (redirect (Location.checkout e.id o.id), save_order (retarget now p o) db)
      | none ↦ do
        db' ← add_order (new_order now order_id e.id user p (text "host")) db
        ok (redirect (Location.checkout e.id order_id), db')
    ]

abbrev pub assign_package : ℕ → Text → Event → Event
assign_package now code e = record e { package_code = code; package_assigned_at = now }

-- `package_request` from the tests on the package on.
unfoldable pub change_package : ℕ → Db → User → Event → PackageConfig → ℕ → Result (Response × Db)
change_package now db user e p order_id =
    if text_eq p.code e.package_code then ok (redirect (Location.packages e.id), db) else do
      current ← or_raise (package_config db e.package_code) 409
      raise_if (leb p.tier_rank current.tier_rank) 409
      if not p.payment_required
          then ok (redirect (Location.event e.id), save_event (assign_package now p.code e) db)
          else place_order now db user e p order_id

unfoldable pub package_request : Env → Request → Db → Option ℕ → Text → ℕ → Result (Response × Db)
package_request env req db event_id package_code order_id =
    require_same_origin env.settings req
    >> logged_in env req db (λ user. do
      owned ← event_for_owner db user event_id
      e ← lock_commercial_event db owned.id
      require_resolved_payments db e.id
      p ← active_package db package_code 400
      change_package req.now db user e p order_id)
