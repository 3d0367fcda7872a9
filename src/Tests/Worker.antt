-- ===== src/Tests/Worker.antt =====
-- Instances of the theorems on the worker, the administrator's settings and figures.
use markmonica.Base.{
  ℕ, Bool, true, false, Option, none, some, List, [], ◌∷◌, ◌≡◌, inl, inr, refl, sym, ap, ◌≤◌, ◌*◌,
  arith,
}
use markmonica.Base.Int.{pos}
use markmonica.Base.Tables.{find, count}
use markmonica.Base.Membership.{In, find-In}
use markmonica.Base.Texts.{Text, text, text_eq}
use markmonica.Model.{Db, User, Event, Media, PackageConfig, MediaStatus, ProcessingStatus}
use markmonica.Http.{Result, ok, err, redirect, Location}
use markmonica.Processing.{Tools}
use markmonica.Uploads.Handlers.{object}
use markmonica.Worker.{Machine, Worker, job, Readings, round, start, stopped, looped}
use markmonica.Worker.Frame.{SameElsewhere, worker_keeps_tables}
use markmonica.Packages.{config_has_code, package_config}
use markmonica.Packages.Edit.{PackageForm, has_rank, update_package}
use markmonica.Packages.Edit.Kept.{InOrder, update_package-InOrder}
use markmonica.Payments.Provider.{is_payfast_row, PayfastForm, update_payfast_settings}
use markmonica.Payments.Secrets.{Settled, update_payfast_seals}
use markmonica.Vault.{Fernet}
use markmonica.Reports.{figures, analytics}
use markmonica.Reports.Daily.{AddsUp, analytics-AddsUp}
use markmonica.Tests.Archives.{tools}
use markmonica.Tests.Data.{settings, decimal, db_with, photo, starter_config, request_of}

abbrev media_tools : Tools
media_tools = record {
  download = λ key. none;
  thumbnail = λ key. none;
  transcode = λ key. none;
  poster = λ key. none;
  upload = λ key type. none;
}

-- A worker whose queue holds the media job of item 5.
abbrev machine : Machine
machine = record {
  settings = settings;
  cleanup_interval = 300;
  archive_cleanup_interval = 3600;
  tools = media_tools;
  archive_tools = tools;
  head = λ key. object 40 (text "image/jpeg");
  request = λ keys. true;
  read_job = λ t. some (record {
    type = text "process_media";
    media_id = some t;
    job_id = none;
    archive_job_id = none;
  });
}

abbrev before : Db
before = db_with [] (photo 5 MediaStatus.uploaded ProcessingStatus.pending ∷ [])

abbrev due : Readings
due = record {
  media_poll = (500, 501);
  archive_poll = (502, 503);
  cleanup = (504, 505);
  archive_cleanup = (506, 507);
}

abbrev later : Worker
later = round machine 100 (job (text "5")) due (start machine 100 50 before)

worker_keeps_tables_example : SameElsewhere before later.db
worker_keeps_tables_example =
    worker_keeps_tables machine 100 50 before later (looped 100 (job (text "5")) due stopped)

abbrev starter_form : PackageForm
starter_form = record {
  name = text " Starter ";
  tier_rank = pos 20;
  max_media_per_event = text "50";
  max_storage_gb = [];
  max_video_mb = [];
  price_zar = text "99";
  payment_required = none;
  guest_gallery = some (text "on");
  archive_downloads = none;
  custom_event_design = none;
  is_active = some (text "on");
}

-- Stand-ins for Python's floats: every text reads as 50, and no number is negative.
abbrev read_fifty : Text → Option ℕ
read_fifty t = some 50

abbrev never : ℕ → Bool
never n = false

abbrev times : ℕ → ℕ → Option ℕ
times n k = some (n * k)

abbrev untouched : PackageConfig → PackageConfig → ℕ
untouched old new = 100

abbrev edited : Result Db
edited =
    elim (update_package read_fifty never times decimal untouched settings (request_of (text "a"))
      before (text "starter") starter_form) [ ok r ↦ ok r.1 | err e ↦ err e ]

abbrev after_edit : Db
after_edit = elim edited [ ok d ↦ d | err e ↦ before ]

edits :
    update_package read_fifty never times decimal untouched settings
      (request_of (text "a"))
      before
      (text "starter")
      starter_form
    ≡ ok (redirect Location.admin_packages, after_edit)
unfolding update_package markmonica.Accounts.require_admin find markmonica.Base.Tables.any text_eq
    package_config markmonica.Packages.Edit.check_package markmonica.Base.Texts.strip
    markmonica.Packages.Edit.form_values markmonica.Packages.Edit.parse_optional_limit
    markmonica.Payments.Amount.received_cents markmonica.Payments.Amount.cents
edits = refl

only_active : (p : PackageConfig) → In p (starter_config ∷ []) → p.is_active ≡ true
only_active p (inl e) = ap (λ x. x.is_active) e
only_active p (inr i) = absurd i

in_order : InOrder before
unfolding package_config find count text_eq
in_order = record {
  codes = λ code. ground arith;
  ranks = λ rank. ground arith;
  in_use = λ e p there stored.
      only_active p (find-In (config_has_code e.package_code) before.package_configs stored);
  priced = refl;
}

update_package-InOrder_example : InOrder after_edit
update_package-InOrder_example =
    update_package-InOrder read_fifty never times decimal untouched settings (request_of (text "a"))
      before after_edit (text "starter") starter_form (redirect Location.admin_packages) in_order
      edits

-- A cipher that turns a text into a letter before it.
abbrev fernet : Fernet
fernet = record { encrypt = λ t. 120 ∷ t; decrypt = λ t. none }

abbrev payfast_form : PayfastForm
payfast_form = record {
  is_enabled = some (text "on");
  is_sandbox = none;
  merchant_id = text "200";
  merchant_key = text " secret ";
  passphrase = [];
}

-- A database without a row of Payfast.
abbrev sealed : Db
sealed = record before { payment_provider_configs = [] }

abbrev after_settings : Db
after_settings =
    elim (update_payfast_settings settings (some fernet) (request_of (text "a")) sealed
      payfast_form) [ ok r ↦ r.1 | err e ↦ sealed ]

sets :
    update_payfast_settings settings (some fernet) (request_of (text "a")) sealed payfast_form
    ≡ ok (redirect Location.admin_payments, after_settings)
unfolding update_payfast_settings markmonica.Accounts.require_admin find markmonica.Base.Tables.any
    text_eq markmonica.Accounts.require_same_origin markmonica.Payments.Provider.new_secret
    markmonica.Base.Texts.strip markmonica.Vault.encrypt_secret markmonica.Base.Texts.starts_with
sets = refl

update_payfast_seals_example : Settled (some fernet) sealed after_settings payfast_form
update_payfast_seals_example =
    update_payfast_seals settings (some fernet) (request_of (text "a")) sealed after_settings
      payfast_form (redirect Location.admin_payments) sets

counted : analytics settings (request_of (text "a")) before ≡ ok (figures 100 before)
unfolding analytics markmonica.Accounts.require_admin find markmonica.Base.Tables.any text_eq
counted = refl

media_past : (m : Media) → In m before.media → m.created_at ≤ 100
media_past m (inl e) = omega (arith, ap (λ x. x.created_at) e)
media_past m (inr i) = absurd i

events_past : (x : Event) → In x before.events → x.created_at ≤ 100
events_past x (inl e) = omega (arith, ap (λ y. y.created_at) e)
events_past x (inr i) = absurd i

users_past : (u : User) → In u before.users → u.created_at ≤ 100
users_past u (inl e) = omega (arith, ap (λ x. x.created_at) e)
users_past u (inr (inl e)) = omega (arith, ap (λ x. x.created_at) e)
users_past u (inr (inr i)) = absurd i

analytics-AddsUp_example : AddsUp 100 before (figures 100 before)
analytics-AddsUp_example =
    analytics-AddsUp settings (request_of (text "a")) before (figures 100 before)
      (record { users = users_past; events = events_past; media = media_past }) counted
