-- ===== src/Http.antt =====
-- What a request handler returns. A handler that raises leaves the database as it was, since the
-- session is closed with nothing committed: so a handler is a function of the database into a
-- result, and only a successful one carries a new database. The text of a refusal is left out.
pub mod Post
use markmonica.Base.{ℕ, Option, none, some, Bool, true, false}
use markmonica.Base.Texts.{Text}
use markmonica.Model.{Db}

pub data Failure : Type 0 where
  -- `HTTPException(status_code)`
  http : ℕ → Failure
  -- any other exception, which the server answers with 500
  unhandled : Failure

pub data Result {ℓ} (A : Type ℓ) : Type ℓ where
  ok : A → Result A
  err : Failure → Result A

-- `if c: raise HTTPException(code)`
abbrev pub raise_if : Bool → ℕ → Result (Unit {0})
raise_if true code = err (http code)
raise_if false code = ok tt

-- `if x is None: raise HTTPException(code)`
abbrev pub or_raise {ℓ} : {A : Type ℓ} → Option A → ℕ → Result A
or_raise none code = err (http code)
or_raise (some a) code = ok a

-- A handler goes on with what a step returns; a failure ends it.
infixl 5 ◌>>=◌
abbrev pub ◌>>=◌ {ℓ₁ ℓ₂} : {X : Type ℓ₁} {Y : Type ℓ₂} → Result X → (X → Result Y) → Result Y
err failure >>= next = err failure
ok value >>= next = next value

infixl 5 ◌>>◌
abbrev pub ◌>>◌ {ℓ₁} : {Y : Type ℓ₁} → Result (Unit {0}) → Result Y → Result Y
check >> next = check >>= λ passed. next

-- The request as the handlers read it.
pub record Request : Type 0 where
  pub origin : Option Text
  pub referer : Option Text
  -- the cookie `markmonica_session`
  pub session_token : Option Text
  -- the instant of the request, for every call of `utcnow` in it
  pub now : ℕ

-- Where a redirect leads.
pub data Location : Type 0 where
  login dashboard home admin_packages admin_payments admin_branding : Location
  event packages payment_cancelled payment_processing : ℕ → Location
  checkout : ℕ → ℕ → Location
  admin_event admin_order admin_user : ℕ → Location
  -- a link to an object of the store, signed for a short time
  presigned : Text → Location

pub data Response : Type 0 where
  redirect : Location → Response
  -- a page or a JSON body with status 200
  success : Response
  -- a page that reports a refusal, with its status
  refusal : ℕ → Response

-- The database after a request: a request that raised has changed nothing.
abbrev pub after : Db → Result (Response × Db) → Db
after db (ok (r, db')) = db'
after db (err e) = db
