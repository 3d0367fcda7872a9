-- ===== src/Model.antt =====
-- The database of app/models.py: one record for each table, its columns in the source's order,
-- and the session as the tables together. A UUID is the number that it stands for, a column of
-- text a list of code points, an instant the seconds since the start of the calendar. A column
-- that holds one of a fixed set of words is a data type with a constructor for each word. The
-- column `updated_at` of users and events, which the ORM keeps and no code reads, is left out.
mod Rows
mod Orders
pub use Rows.*
pub use Orders.*
use markmonica.Base.{ℕ, Option, List}

pub record Db : Type 0 where
  pub users : List User
  pub user_sessions : List UserSession
  pub events : List Event
  pub media : List Media
  pub archive_jobs : List ArchiveJob
  pub package_configs : List PackageConfig
  pub admin_activity : List AdminActivity
  pub package_orders : List PackageOrder
  pub payment_provider_configs : List PaymentProviderConfig
