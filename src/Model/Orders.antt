-- ===== src/Model/Orders.antt =====
-- The tables of commercial orders, their audit trail and the payment provider (app/models.py), and
-- the words of an order's status (`ORDER_STATUSES` in app/admin.py).
use markmonica.Base.{ℕ, Bool, true, false, Option}
use markmonica.Base.Texts.{Text}

pub record AdminActivity : Type 0 where
  pub id : ℕ
  pub admin_user_id : Option ℕ
  pub action : Text
  pub target_type : Option Text
  pub target_id : Option ℕ
  pub target_label : Option Text
  pub detail : Option Text
  pub created_at : ℕ

pub data OrderStatus : Type 0 where
  pending awaiting_payment paid approved failed cancelled payment_review : OrderStatus

pub record PackageOrder : Type 0 where
  pub id : ℕ
  pub event_id : ℕ
  pub user_id : ℕ
  pub package_code : Text
  pub status : OrderStatus
  pub source : Text
  pub provider : Option Text
  pub provider_reference : Option Text
  pub amount_cents : ℕ
  pub currency : Text
  pub created_at : ℕ
  pub updated_at : ℕ

-- `PackageOrder.requires_review`
abbrev pub requires_review_status : OrderStatus → Bool
requires_review_status OrderStatus.payment_review = true
requires_review_status _ = false

unfoldable pub requires_review : PackageOrder → Bool
requires_review o = requires_review_status o.status

pub record PaymentProviderConfig : Type 0 where
  pub code : Text
  pub display_name : Text
  pub is_enabled : Bool
  pub is_sandbox : Bool
  pub merchant_id : Option Text
  pub merchant_key : Option Text
  pub passphrase : Option Text
  pub updated_at : ℕ
