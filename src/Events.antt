-- ===== src/Events.antt =====
-- Events as their hosts edit them (`update_event`, app/main.py) and as administrators switch them
-- (`event_status`, app/admin.py).
pub mod Publishing
use markmonica.Base.{
  ℕ, Bool, true, false, not, ◌&&◌, ◌||◌, Option, none, some, List, [], ◌∷◌, leb, ◌==◌,
  if◌then◌else◌,
}
use markmonica.Base.Tables.{find, any, take, length}
use markmonica.Base.Texts.{
  Text, text, text_eq, one_of, is_empty, strip, lower, non_empty, or_else, is_given,
}
use markmonica.Model.{Db, Event, EventStatus, PackageOrder, OrderStatus}
use markmonica.Http.{
  Result, ok, ◌>>=◌, ◌>>◌, raise_if, or_raise, Request, Response, redirect, Location,
}
use markmonica.Accounts.{require_same_origin, require_admin, event_for_owner}
use markmonica.Packages.{PackageDefinition, get_package}
use markmonica.Orders.{event_has_id, save_event}
use markmonica.Orders.Host.{Env, logged_in}

-- `clean_message`, with its default length.
unfoldable pub clean_message : Text → Option Text
clean_message value = non_empty (take 1200 (strip value))

abbrev is_hex : ℕ → Bool
is_hex c = (leb 48 c && leb c 57) || (leb 65 c && leb c 70) || (leb 97 c && leb c 102)

abbrev all_hex : Text → Bool
all_hex [] = true
all_hex (c ∷ t) = is_hex c && all_hex t

-- `re.fullmatch("#[0-9a-fA-F]{6}", value)`
abbrev is_color : Text → Bool
is_color [] = false
is_color (c ∷ t) = c == 35 && length t == 6 && all_hex t

abbrev pub default_accent_color : Text
default_accent_color = text "#7c5cff"

unfoldable pub clean_accent_color : Text → Text
clean_accent_color value =
    let stripped = strip value in if is_color stripped then lower stripped else default_accent_color

abbrev pub allowed_event_themes : List Text
allowed_event_themes = text "classic" ∷ text "romantic" ∷ text "modern" ∷ []

abbrev pub allowed_guest_fonts : List Text
allowed_guest_fonts =
    text "default"
    ∷ text "playfair"
    ∷ text "cormorant"
    ∷ text "dm-serif"
    ∷ text "great-vibes"
    ∷ text "parisienne"
    ∷ text "dancing-script"
    ∷ text "libre-baskerville"
    ∷ text "montserrat"
    ∷ text "poppins"
    ∷ []

abbrev pub is_unresolved : OrderStatus → Bool
is_unresolved OrderStatus.pending = true
is_unresolved OrderStatus.awaiting_payment = true
is_unresolved OrderStatus.paid = true
is_unresolved OrderStatus.payment_review = true
is_unresolved _ = false

abbrev pub unresolved_for : ℕ → PackageOrder → Bool
unresolved_for event_id o = o.event_id == event_id && is_unresolved o.status

-- The form of the page; the switch of the gallery is there or not.
pub record EventForm : Type 0 where
  pub title : Text
  pub event_date : Text
  pub status : Text
  pub welcome_message : Text
  pub thank_you_message : Text
  pub theme : Text
  pub accent_color : Text
  pub guest_font : Text
  pub guest_gallery_enabled : Option Text

abbrev pub wants_live : Text → Bool
wants_live status = text_eq status (text "live")

-- `date.fromisoformat`: an unreadable date leaves the event's date as it is.
abbrev pub edited_date : Env → Option ℕ → Text → Option ℕ
edited_date env current t =
    if is_empty t
    then none
    else elim (env.settings.parse_date t) [ none ↦ current | some d ↦ some d ]

abbrev pub allowed_or : List Text → Text → Text → Text
allowed_or allowed default t = if one_of t allowed then t else default

abbrev pub edited : Env → PackageDefinition → EventForm → Event → Event
edited env p f e = record e {
  title = or_else (strip f.title) e.title;
  event_date = edited_date env e.event_date f.event_date;
  status = if wants_live f.status then EventStatus.live else EventStatus.draft;
  welcome_message = clean_message f.welcome_message;
  thank_you_message = clean_message f.thank_you_message;
  theme =
      if p.custom_event_design
      then allowed_or allowed_event_themes (text "classic") f.theme
      else e.theme;
  accent_color =
      if p.custom_event_design then clean_accent_color f.accent_color else e.accent_color;
  guest_font =
      if p.custom_event_design
      then allowed_or allowed_guest_fonts (text "default") f.guest_font
      else e.guest_font;
  guest_gallery_enabled = p.guest_gallery && is_given f.guest_gallery_enabled;
}

unfoldable pub update_event : Env → Request → Db → Option ℕ → EventForm → Result (Response × Db)
update_event env req db event_id f =
    require_same_origin env.settings req
    >> logged_in env req db (λ user. do
      e ← event_for_owner db user event_id
      let p = get_package db e.package_code
      raise_if (wants_live f.status && any (unresolved_for e.id) db.package_orders) 409
      ok (redirect (Location.event e.id), save_event (edited env p f e) db))

-- The words that `event_status` accepts.
abbrev pub read_status : Text → Option EventStatus
read_status t =
    if text_eq t (text "draft")
    then some EventStatus.draft
    else if text_eq t (text "live")
    then some EventStatus.live
    else none

unfoldable pub event_status : Env → Request → Db → ℕ → Text → Result (Response × Db)
event_status env req db event_id status = do
  admin ← require_admin env.settings req db
  e ← or_raise (find (event_has_id event_id) db.events) 404
  word ← or_raise (read_status status) 400
  ok (redirect (Location.admin_event e.id), save_event (record e { status = word }) db)
