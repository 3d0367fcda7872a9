-- ===== src/Audit/Recorded.antt =====
-- When a row is added to the trail.
use markmonica.Base.{
  ℕ, Bool, true, false, ◌&&◌, ◌≡◌, refl, Option, none, some, ltb, none-some, some_inj,
  if◌then◌else◌,
}
use markmonica.Base.Texts.{Text, text, starts_with}
use markmonica.Model.{Db, User}
use markmonica.Http.{Request}
use markmonica.Accounts.{Settings, current_user}
use markmonica.Audit.{
  Description, Activity, describe, record_admin_activity, row_of, row_for, admin_audit,
}

-- What stands behind a row.
pub record Audited (s : Settings) (req : Request) (db : Db) (is_post : Bool) (path : Text)
    (status_code : ℕ) (row : Activity) : Type 0 where
  pub admin : User
  pub signed_in : current_user s req db ≡ some admin
  pub is_admin : admin.is_admin ≡ true
  pub succeeded : (is_post && starts_with path (text "/admin/") && ltb status_code 400) ≡ true
  pub description : Description
  pub described : describe s db path ≡ some description
  pub recorded : record_admin_activity admin description ≡ row

guard_of :
    (b : Bool) (o : Option Activity) {row : Activity}
    → (if b then o else none) ≡ some row
    → (b ≡ true) × (o ≡ some row)
guard_of true o h = (refl, h)
guard_of false o h = absurd (none-some h)

row_of-some :
    (u : User) (o : Option Description) {row : Activity}
    → row_of u o ≡ some row
    → (d : Description) × (o ≡ some d) × (record_admin_activity u d ≡ row)
row_of-some u none h = absurd (none-some h)
row_of-some u (some d) h = (d, refl, some_inj h)

row_for-some :
    (s : Settings) (db : Db) (path : Text) (o : Option User) {row : Activity}
    → row_for s db path o ≡ some row
    → (u : User) × (o ≡ some u) × (u.is_admin ≡ true) × (row_of u (describe s db path) ≡ some row)
row_for-some s db path none h = absurd (none-some h)
row_for-some s db path (some u) h =
    let (is_admin, made) = guard_of u.is_admin (row_of u (describe s db path)) h in
    (u, refl, is_admin, made)

-- A row is added only after a POST below /admin/ that did not fail, for the administrator whose
-- session made it, and holds what the path describes.
admin_audit-Audited :
    (s : Settings) (req : Request) (db : Db) (is_post : Bool) (path : Text) (status_code : ℕ)
    (row : Activity)
    → admin_audit s req db is_post path status_code ≡ some row
    → Audited s req db is_post path status_code row
unfolding admin_audit
admin_audit-Audited s req db is_post path status_code row h =
    let (succeeded, added) =
      guard_of (is_post && starts_with path (text "/admin/") && ltb status_code 400)
        (row_for s db path (current_user s req db)) h in
    let (admin, signed_in, is_admin, made) = row_for-some s db path (current_user s req db) added in
    let (d, described, recorded) = row_of-some admin (describe s db path) made in
    record {
      admin = admin;
      signed_in = signed_in;
      is_admin = is_admin;
      succeeded = succeeded;
      description = d;
      described = described;
      recorded = recorded;
    }
