-- ===== src/Tests/Data.antt =====
-- The samples that the instances use: a host, an administrator, an event with an order in payment,
-- and stand-ins for the platform's functions.
use markmonica.Base.{ℕ, true, false, Option, none, some, List, [], ◌∷◌}
use markmonica.Base.Texts.{Text, text}
use markmonica.Base.Int.{negsuc}
use markmonica.Model.{
  Db, User, UserSession, Event, EventStatus, Media, MediaStatus, ProcessingStatus, PackageConfig,
  PackageOrder, OrderStatus, PaymentProviderConfig,
}
use markmonica.Http.{Request}
use markmonica.Accounts.{Settings}
use markmonica.Payments.Itn.{Form, Gateway}
use markmonica.Payments.Amount.{Decimal, finite}
use markmonica.Orders.Host.{Env}

abbrev pub host : User
host = record {
  id = 1;
  email = text "h@x.za";
  display_name = text "Host";
  password_hash = text "old";
  is_active = true;
  is_admin = false;
  plan_code = text "free";
  created_at = 0;
}

abbrev pub root : User
root = record {
  id = 2;
  email = text "a@x.za";
  display_name = text "Admin";
  password_hash = text "old";
  is_active = true;
  is_admin = true;
  plan_code = text "free";
  created_at = 0;
}

abbrev session_of : ℕ → ℕ → Text → UserSession
session_of id user_id token = record {
  id = id;
  user_id = user_id;
  token_hash = token;
  expires_at = 1000;
  created_at = 0;
}

abbrev pub party : Event
party = record {
  id = 7;
  owner_id = 1;
  slug = text "party";
  title = text "Party";
  event_date = none;
  status = EventStatus.live;
  package_code = text "demo";
  package_assigned_at = 0;
  gallery_visibility = text "approved";
  welcome_message = none;
  thank_you_message = none;
  theme = text "classic";
  accent_color = text "#7c5cff";
  guest_font = text "default";
  guest_gallery_enabled = false;
  cover_object_key = none;
  cover_content_type = none;
  created_at = 0;
}

abbrev pub starter_config : PackageConfig
starter_config = record {
  code = text "starter";
  name = text "Starter";
  max_media_per_event = some 100;
  max_storage_bytes_per_event = some 1000;
  max_video_bytes = some 500;
  guest_gallery = false;
  archive_downloads = true;
  custom_event_design = true;
  is_active = true;
  price_cents = 9900;
  currency = text "ZAR";
  tier_rank = 10;
  payment_required = true;
  updated_at = 0;
}

abbrev pub order_with : OrderStatus → PackageOrder
order_with status = record {
  id = 5;
  event_id = 7;
  user_id = 1;
  package_code = text "starter";
  status = status;
  source = text "host";
  provider = some (text "payfast");
  provider_reference = none;
  amount_cents = 9900;
  currency = text "ZAR";
  created_at = 0;
  updated_at = 0;
}

abbrev payfast : PaymentProviderConfig
payfast = record {
  code = text "payfast";
  display_name = text "Payfast";
  is_enabled = true;
  is_sandbox = true;
  merchant_id = some (text "100");
  merchant_key = some (text "key");
  passphrase = none;
  updated_at = 0;
}

abbrev pub photo : ℕ → MediaStatus → ProcessingStatus → Media
photo id status processing_status = record {
  id = id;
  event_id = 7;
  object_key = text "events/7/originals/a-b.jpg";
  original_filename = text "b.jpg";
  content_type = text "image/jpeg";
  size_bytes = 40;
  uploader_name = none;
  caption = none;
  status = status;
  processing_status = processing_status;
  preview_object_key = none;
  poster_object_key = none;
  processed_object_key = none;
  processed_content_type = none;
  processing_error = none;
  created_at = 10;
}

abbrev pub db_with : List PackageOrder → List Media → Db
db_with orders media = record {
  users = host ∷ root ∷ [];
  user_sessions = session_of 1 1 (text "h") ∷ session_of 2 2 (text "a") ∷ [];
  events = party ∷ [];
  media = media;
  archive_jobs = [];
  package_configs = starter_config ∷ [];
  admin_activity = [];
  package_orders = orders;
  payment_provider_configs = payfast ∷ [];
}

-- Stand-ins: digests and encodings leave a text as it is, ids are written in one letter, the
-- gateway confirms everything.
abbrev pub settings : Settings
settings = record {
  app_origin = none;
  app_url = text "https://x.za";
  max_image_upload_mb = 1;
  max_video_upload_mb = 1;
  stale_upload_hours = 24;
  archive_retention_hours = 24;
  archive_stale_job_hours = 1;
  sha256 = λ t. t;
  str_uuid = λ n. n ∷ [];
  parse_uuid = λ t. some 5;
  parse_date = λ t. none;
}

abbrev pub gateway : Gateway
gateway = record {
  quote_plus = λ t. t;
  md5 = λ t. t;
  post = λ url payload. some (200, text "VALID");
}

abbrev pub env : Env
env = record { settings = settings; gateway = gateway; vault = none }

-- `Decimal` reads every text as 99.00.
abbrev pub decimal : Text → Option Decimal
decimal t = some (finite false 9900 (negsuc 1))

abbrev pub request_of : Text → Request
request_of token = record { origin = none; referer = none; session_token = some token; now = 100 }

abbrev pub itn : Text → Form
itn status =
    (text "m_payment_id", text "5")
    ∷ (text "payment_status", status)
    ∷ (text "amount_gross", text "99.00")
    ∷ (text "merchant_id", text "100")
    ∷ (
      text "signature",
      text "m_payment_id=5&payment_status=COMPLETE&amount_gross=99.00&merchant_id=100",
    )
    ∷ []
