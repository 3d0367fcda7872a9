-- ===== src/Events/Publishing.antt =====
-- Which events go live.
use mathlib.Core.Path.{subst₂}
use markmonica.Base.{
  if◌then◌else◌, ◌≤◌, ℕ, false, ◌&&◌, ◌≡◌, refl, Option, none, some, arith, ==_refl, Option-cases,
  inl, inr,
}
use markmonica.Base.Tables.{find, any, count, find-put}
use markmonica.Base.Membership.{In, find-In, find_unique}
use markmonica.Model.{Db, User, Event, EventStatus}
use markmonica.Http.{Result, ok, raise_if, Request, Response, redirect, Location}
use markmonica.Http.Post.{returned_db, bind_ok, or_raise_ok, raise_if_ok}
use markmonica.Accounts.{require_same_origin, current_user, event_for_owner, visible_to}
use markmonica.Packages.{get_package}
use markmonica.Orders.{event_has_id, save_event}
use markmonica.Orders.Host.{Env, logged_in}
use markmonica.Events.{EventForm, wants_live, unresolved_for, update_event, edited}

-- An edit that succeeded.
pub record Edited (db db' : Db) (id : ℕ) (f : EventForm) : Type 0 where
  pub event : Event
  pub stored : find (event_has_id id) db'.events ≡ some event
  pub follows : event.status ≡ (if wants_live f.status then EventStatus.live else EventStatus.draft)
  pub resolved : (wants_live f.status && any (unresolved_for id) db'.package_orders) ≡ false

visible_key :
    (db : Db) (u : User) (id : Option ℕ) {e : Event}
    → event_for_owner db u id ≡ ok e
    → In e db.events
unfolding event_for_owner
visible_key db u none h = cc
visible_key db u (some id) {e} h =
    find-In (visible_to u id) db.events (or_raise_ok (find (visible_to u id) db.events) 404 h)

not_event :
    {id : ℕ} {x y : Db}
    → ◌≡◌ {A = Result (Response × Db)}
        (ok (redirect Location.login, x))
        (ok (redirect (Location.event id), y))
    → ⊥
not_event h = cc

-- Where ids of events are unique, an edit that leads the browser back to the event has stored the
-- event with the state that the form asked for, and the event is live only if none of its orders
-- is pending, in payment, paid or under review.
pub update_event_publishes :
    (env : Env) (req : Request) (db db' : Db) (event_id : Option ℕ) (f : EventForm) (id : ℕ)
    → ((k : ℕ) → count (event_has_id k) db.events ≤ 1)
    → update_event env req db event_id f ≡ ok (redirect (Location.event id), db')
    → Edited db db' id f
unfolding update_event
update_event_publishes env req db db' event_id f id unique h =
    let (_, _, h₁) = bind_ok (require_same_origin env.settings req) _ h in
    elim (Option-cases (current_user env.settings req db)) [
      | inl nobody ↦ absurd (not_event (rw (logged_in, nobody) at h₁))
      | inr (user, known) ↦
          let (e, owned, h₂) =
            bind_ok (event_for_owner db user event_id) _ (rw (logged_in, known) at h₁) in
          let p = get_package db e.package_code in
          let (_, guard, h₃) =
            bind_ok
              (raise_if (wants_live f.status && any (unresolved_for e.id) db.package_orders) 409) _
              h₂ in
          let e' = edited env p f e in
          let stored =
            find_unique (event_has_id e.id) db.events (visible_key db user event_id owned)
              (==_refl e.id) (unique e.id) in
          let now_stored = find-put (event_has_id e.id) e' db.events stored (==_refl e.id) in
          subst₂ (λ k d. Edited db d k f) (ground arith) (returned_db _ _ (save_event e' db) db' h₃)
            (record {
              event = e';
              stored = now_stored;
              follows = refl;
              resolved = raise_if_ok _ 409 guard;
            })
    ]
