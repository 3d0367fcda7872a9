-- ===== src/Accounts/Owners.antt =====
-- Who stands behind a request on an event that `event_for_owner` lets through.
use markmonica.Base.{ℕ, true, ◌||◌, ◌==◌, ◌≡◌, some}
use markmonica.Model.{Db, User, Event}
use markmonica.Http.{ok, Request}
use markmonica.Http.Post.{or_raise_ok}
use markmonica.Accounts.{Settings, current_user, require_user, event_for_owner, event_for_owner_ok}

-- The user of the request is signed in, and owns the event or is an administrator.
pub record Entitled (s : Settings) (req : Request) (db : Db) (event_id : ℕ) (user : User)
    (event : Event) : Type 0 where
  pub signed_in : current_user s req db ≡ some user
  pub looked_up : event_for_owner db user (some event_id) ≡ ok event
  pub named : event.id ≡ event_id
  pub allowed : (user.is_admin || event.owner_id == user.id) ≡ true

pub event_for_owner-Entitled :
    (s : Settings) (req : Request) (db : Db) (event_id : ℕ) {u : User} {e : Event}
    → require_user s req db ≡ ok u
    → event_for_owner db u (some event_id) ≡ ok e
    → Entitled s req db event_id u e
unfolding require_user
event_for_owner-Entitled s req db event_id {u} {e} signed found =
    let (named, allowed) = event_for_owner_ok db u e event_id found in
    record {
      signed_in = or_raise_ok (current_user s req db) 401 signed;
      looked_up = found;
      named = named;
      allowed = allowed;
    }
