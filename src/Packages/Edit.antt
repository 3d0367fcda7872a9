-- ===== src/Packages/Edit.antt =====
-- The administrator's form for a package (`update_package` and `parse_optional_limit`,
-- app/admin.py). Python's floats are a parameter, as is the reading of a decimal.
pub mod Kept
use markmonica.Base.{
  ℕ, Bool, true, false, not, ◌&&◌, ◌||◌, Option, none, some, List, [], ◌∷◌, ◌==◌, if◌then◌else◌,
}
use markmonica.Base.Int.{ℤ, is_negative, pos_part}
use markmonica.Base.Tables.{find, put, any}
use markmonica.Base.Texts.{Text, text, text_eq, strip, is_empty, or_else}
use markmonica.Model.{Db, Event, PackageConfig}
use markmonica.Http.{
  Result, ok, err, http, unhandled, ◌>>=◌, ◌>>◌, raise_if, or_raise, Request, Response, redirect,
  Location,
}
use markmonica.Accounts.{Settings, require_admin}
use markmonica.Payments.Amount.{Decimal, received_cents}
use markmonica.Packages.{config_has_code, package_config, gib, mib}

pub record PackageForm : Type 0 where
  pub name : Text
  pub tier_rank : ℤ
  pub max_media_per_event : Text
  pub max_storage_gb : Text
  pub max_video_mb : Text
  pub price_zar : Text
  pub payment_required : Option Text
  pub guest_gallery : Option Text
  pub archive_downloads : Option Text
  pub custom_event_design : Option Text
  pub is_active : Option Text

-- `value == "on"`
abbrev pub is_on : Option Text → Bool
is_on none = false
is_on (some t) = text_eq t (text "on")

abbrev pub has_rank : ℕ → PackageConfig → Bool
has_rank rank c = c.tier_rank == rank

-- Another package of that rank.
abbrev pub takes_rank : ℕ → Text → PackageConfig → Bool
takes_rank rank code c = has_rank rank c && not (config_has_code code c)

abbrev pub assigned_to : Text → Event → Bool
assigned_to code e = text_eq e.package_code code

abbrev pub price_of : Bool → ℕ → ℕ
price_of required price = if required then price else 0

-- The limits and the price, as the form's fields read.
pub record Values : Type 0 where
  pub media : Option ℕ
  pub storage : Option ℕ
  pub video : Option ℕ
  pub price : ℕ

-- The row that the form makes of a package, but for `updated_at`.
abbrev pub edited_package : PackageForm → Values → PackageConfig → PackageConfig
edited_package f v p = record p {
  name = strip f.name;
  tier_rank = pos_part f.tier_rank;
  max_media_per_event = v.media;
  max_storage_bytes_per_event = v.storage;
  max_video_bytes = v.video;
  price_cents = price_of (is_on f.payment_required) v.price;
  currency = text "ZAR";
  payment_required = is_on f.payment_required;
  guest_gallery = is_on f.guest_gallery;
  archive_downloads = is_on f.archive_downloads;
  custom_event_design = is_on f.custom_event_design;
  is_active = is_on f.is_active;
}

abbrev pub save_package : PackageConfig → Db → Db
save_package p db = record db {
  package_configs = put (config_has_code p.code) p db.package_configs;
}

-- A float's reading (`none` where it raises), its sign, and `int(number * multiplier)` (`none`
-- where it raises, which it does for what is not finite).
module _ {Number : Type 0} (read : Text → Option Number) (negative : Number → Bool)
    (scaled : Number → ℕ → Option ℕ) where
  abbrev some_limit : Option ℕ → Result (Option ℕ)
  some_limit none = err unhandled
  some_limit (some n) = ok (some n)

  unfoldable pub parse_optional_limit : Text → ℕ → Result (Option ℕ)
  parse_optional_limit value multiplier = if is_empty (strip value) then ok none else (do
    number ← or_raise (read (strip value)) 400
    raise_if (negative number) 400
    some_limit (scaled number multiplier))

  unfoldable pub form_values : (Text → Option Decimal) → PackageForm → Result Values
  form_values decimal f = do
    media ← parse_optional_limit f.max_media_per_event 1
    storage ← parse_optional_limit f.max_storage_gb gib
    video ← parse_optional_limit f.max_video_mb mib
    price ← received_cents (decimal (strip (or_else f.price_zar (text "0"))))
    ok (record { media = media; storage = storage; video = video; price = price })

  -- The form's checks on a stored package, and its new row. The session writes `updated_at` when
  -- it writes another column, as `touched` says.
  unfoldable pub check_package :
      (Text → Option Decimal)
      → (PackageConfig → PackageConfig → ℕ)
      → Db
      → PackageForm
      → PackageConfig
      → Result PackageConfig
  check_package decimal touched db f p = do
    raise_if (is_empty (strip f.name)) 400
    raise_if (is_negative f.tier_rank) 400
    raise_if (any (takes_rank (pos_part f.tier_rank) p.code) db.package_configs) 400
    v ← form_values decimal f
    raise_if (not (is_on f.is_active) && any (assigned_to p.code) db.events) 400
    let edited = edited_package f v p
    ok (record edited { updated_at = touched p edited })

  unfoldable pub update_package :
      (Text → Option Decimal)
      → (PackageConfig → PackageConfig → ℕ)
      → Settings
      → Request
      → Db
      → Text
      → PackageForm
      → Result (Response × Db)
  update_package decimal touched s req db code f = do
    admin ← require_admin s req db
    p ← or_raise (package_config db code) 404
    edited ← check_package decimal touched db f p
    ok (redirect Location.admin_packages, save_package edited db)
