-- ===== src/Audit.antt =====
-- The trail of what administrators do (app/admin_audit_middleware.py, and `record_admin_activity`
-- of app/admin_activity.py): the row that follows a request which succeeded. A row names its
-- target by a part of the path, so it is a type of its own beside the rows of Model, whose targets
-- are orders.
pub mod Recorded
use markmonica.Base.{
  ℕ, zero, suc, Bool, true, false, not, ◌&&◌, Option, none, some, List, [], ◌∷◌, ◌++◌, ltb, leb,
  if◌then◌else◌,
}
use markmonica.Base.Tables.{select, length}
use markmonica.Base.Texts.{
  Text, text, text_eq, is_empty, starts_with, title, take, non_empty, truthy,
}
use markmonica.Model.{Db, User, Event, EventStatus, PackageConfig}
use markmonica.Http.{Request}
use markmonica.Accounts.{Settings, current_user}
use markmonica.Accounts.Hashing.{split}
use markmonica.Accounts.Users.{get_user}
use markmonica.Orders.{event_has_id}
use markmonica.Packages.{package_config}

-- `part for part in path.split("/") if part`
unfoldable pub path_parts : Text → List Text
path_parts path = select (λ p. not (is_empty p)) (split 47 (length path) path)

-- `parts[k]`, the empty text out of range, where no part is empty.
abbrev pub part : ℕ → List Text → Text
part k [] = []
part zero (p ∷ ps) = p
part (suc k) (p ∷ ps) = part k ps

abbrev pub is_part : ℕ → Text → List Text → Bool
is_part k word parts = text_eq (part k parts) word

-- `db.get(Model, uuid.UUID(text))`, `none` where `uuid.UUID` raises.
abbrev pub by_uuid : {A : Type 0} → Settings → (ℕ → Option A) → Text → Option A
by_uuid s get t = elim (s.parse_uuid t) [ none ↦ none | some id ↦ get id ]

pub record Description : Type 0 where
  pub action : Text
  pub target_type : Text
  pub target_id : Option Text
  pub target_label : Text
  pub detail : Text

abbrev pub label_of : {A : Type 0} → (A → Text) → Text → Option A → Text
label_of label fallback none = fallback
label_of label fallback (some a) = label a

abbrev pub user_state : Option User → Text
user_state none = text "changed"
user_state (some u) = if u.is_active then text "enabled" else text "disabled"

abbrev pub event_state : Event → Text
event_state e = elim e.status [ EventStatus.draft ↦ text "draft" | EventStatus.live ↦ text "live" ]

abbrev pub get_event : Db → ℕ → Option Event
get_event db id = markmonica.Base.Tables.find (event_has_id id) db.events

abbrev pub package_updated : Db → Text → Description
package_updated db code = record {
  action = text "package_updated";
  target_type = text "package";
  target_id = some code;
  target_label = label_of (λ (p : PackageConfig). p.name) (title code) (package_config db code);
  detail = text "Package configuration was updated.";
}

abbrev pub user_changed : Text → Text → Text → Option User → Description
user_changed action id detail target = record {
  action = action;
  target_type = text "user";
  target_id = some id;
  target_label = label_of (λ (u : User). u.email) id target;
  detail = detail;
}

abbrev pub event_changed : Text → Text → Text → Option Event → Description
event_changed action id detail target = record {
  action = action;
  target_type = text "event";
  target_id = some id;
  target_label = label_of (λ (e : Event). e.title) id target;
  detail = detail;
}

abbrev pub other_change : Text → Description
other_change path = record {
  action = text "admin_change";
  target_type = text "platform";
  target_id = none;
  target_label = path;
  detail = text "Administrator mutation completed successfully.";
}

abbrev pub branding_updated : Description
branding_updated = record {
  action = text "branding_updated";
  target_type = text "platform";
  target_id = some (text "branding");
  target_label = text "Platform branding";
  detail = text "Branding settings were updated.";
}

-- The two changes of an event, on the event that the path names.
abbrev pub describe_event : Text → List Text → Option Event → Description
describe_event path parts e =
    let id = part 2 parts in
    if is_part 3 (text "status") parts
    then event_changed (text "event_status_changed") id
        (text "Event status is now " ++ label_of event_state (text "changed") e ++ text ".") e
    else if is_part 3 (text "package") parts
    then event_changed (text "event_package_changed") id
        (text "Event package is now "
          ++ label_of (λ (x : Event). x.package_code) (text "changed") e
          ++ text ".")
        e
    else other_change path

abbrev pub describe_parts : Settings → Db → Text → List Text → Option Description
describe_parts s db path parts =
    let n = length parts in
    let id = part 2 parts in
    let user = by_uuid s (get_user db) id in
    if is_part 1 (text "orders") parts
    then none
    else if text_eq path (text "/admin/branding")
    then some branding_updated
    else if leb 3 n && is_part 1 (text "packages") parts
    then some (package_updated db id)
    else if leb 4 n && is_part 1 (text "users") parts && is_part 3 (text "status") parts
    then some (
        user_changed (text "user_status_changed") id
          (text "Host account status was " ++ user_state user ++ text ".") user)
    else if leb 4 n && is_part 1 (text "users") parts && is_part 3 (text "password") parts
    then some (
        user_changed (text "user_password_changed") id
          (text "Account password was changed by an administrator.") user)
    else if leb 4 n && is_part 1 (text "events") parts
    then some (describe_event path parts (by_uuid s (get_event db) id))
    else some (other_change path)

-- `_describe`
unfoldable pub describe : Settings → Db → Text → Option Description
describe s db path = describe_parts s db path (path_parts path)

-- A row of the trail, as `record_admin_activity` makes it.
pub record Activity : Type 0 where
  pub admin_user_id : ℕ
  pub action : Text
  pub target_type : Option Text
  pub target_id : Option Text
  pub target_label : Option Text
  pub detail : Option Text

abbrev cut_id : Option Text → Option Text
cut_id none = none
cut_id (some t) = some (take 160 t)

unfoldable pub record_admin_activity : User → Description → Activity
record_admin_activity admin d = record {
  admin_user_id = admin.id;
  action = take 120 d.action;
  target_type = non_empty d.target_type;
  target_id = cut_id d.target_id;
  target_label = non_empty (take 320 d.target_label);
  detail = non_empty (take 1000 d.detail);
}

abbrev pub row_of : User → Option Description → Option Activity
row_of admin none = none
row_of admin (some d) = some (record_admin_activity admin d)

abbrev pub row_for : Settings → Db → Text → Option User → Option Activity
row_for s db path none = none
row_for s db path (some u) = if u.is_admin then row_of u (describe s db path) else none

-- The row that the middleware adds after a request, if any: `db` is the database after it. An
-- exception on the way adds none, and changes no answer.
unfoldable pub admin_audit : Settings → Request → Db → Bool → Text → ℕ → Option Activity
admin_audit s req db is_post path status_code =
    if is_post && starts_with path (text "/admin/") && ltb status_code 400
    then row_for s db path (current_user s req db)
    else none
