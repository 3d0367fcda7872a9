-- ===== src/Http/Post.antt =====
-- A postcondition of a handler, with one rule for each way in which a handler is put together.
use markmonica.Base.{ℕ, Bool, true, false, ◌≡◌, refl, arith, if◌then◌else◌, Option, some}
use markmonica.Model.{Db}
use markmonica.Http.{Failure, Result, ok, err, ◌>>=◌, Response, or_raise, raise_if, after}

-- The call raised, or it committed a database with `P`.
pub data Returns (P : Db → Type 0) : Result (Response × Db) → Type 0 where
  raised : {e : Failure} → Returns P (err e)
  returned : {r : Response} {db : Db} → P db → Returns P (ok (r, db))

module _ {P : Db → Type 0} where
  pub bind :
      {A : Type 0} (m : Result A) (f : A → Result (Response × Db))
      → ((a : A) → m ≡ ok a → Returns P (f a))
      → Returns P (m >>= f)
  bind (ok a) f h = h a refl
  bind (err e) f h = raised

  pub branch :
      (b : Bool) (x y : Result (Response × Db))
      → (b ≡ true → Returns P x)
      → (b ≡ false → Returns P y)
      → Returns P (if b then x else y)
  branch true x y h k = h refl
  branch false x y h k = k refl

  -- What a request leaves behind, where the unchanged database has `P` too.
  pub after_holds : (db : Db) (r : Result (Response × Db)) → P db → Returns P r → P (after db r)
  after_holds db (ok (r, db')) h (returned k) = k
  after_holds db (err e) h raised = h

-- A postcondition of a stage that returns the new database alone.
pub data Yields (P : Db → Type 0) : Result Db → Type 0 where
  fails : {e : Failure} → Yields P (err e)
  yields : {db : Db} → P db → Yields P (ok db)

module _ {P : Db → Type 0} where
  pub bind_stage :
      {A : Type 0} (m : Result A) (f : A → Result Db)
      → ((a : A) → m ≡ ok a → Yields P (f a))
      → Yields P (m >>= f)
  bind_stage (ok a) f h = h a refl
  bind_stage (err e) f h = fails

  pub finish : (m : Result Db) (r : Response) → Yields P m → Returns P (m >>= λ db. ok (r, db))
  finish (ok db) r (yields p) = returned p
  finish (err e) r fails = raised

-- Inversion of a chain that succeeds.
module _ {ℓ₁ ℓ₂} {X : Type ℓ₁} {Y : Type ℓ₂} where
  pub bind_ok :
      (step : Result X) (next : X → Result Y) {y : Y}
      → step >>= next ≡ ok y
      → (x : X) × (step ≡ ok x) × (next x ≡ ok y)
  bind_ok (err failure) next returns = cc
  bind_ok (ok value) next returns = (value, refl, returns)

-- Inversions of the guards.
pub raise_if_ok : (b : Bool) (code : ℕ) {u : Unit {0}} → raise_if b code ≡ ok u → b ≡ false
raise_if_ok b code e = ground arith

pub or_raise_ok {ℓ} :
    {A : Type ℓ} (o : Option A) (code : ℕ) {a : A} → or_raise o code ≡ ok a → o ≡ some a
or_raise_ok o code e = ground arith

-- The database of a result that is known.
pub returned_db :
    (r r' : Response) (x y : Db) → ◌≡◌ {A = Result (Response × Db)} (ok (r, x)) (ok (r', y)) → x ≡ y
returned_db r r' x y e = cc

pub ok_inj {ℓ} : {A : Type ℓ} {a b : A} → ok a ≡ ok b → a ≡ b
ok_inj h = cc
