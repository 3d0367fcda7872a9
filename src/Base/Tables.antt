-- ===== src/Base/Tables.antt =====
-- Database tables as lists of rows: lookups, the replacement of one row, counts and sums.
use Prim.Native.Nat.{ℕ, zero, suc, ◌+◌, ◌≤◌}
use mathlib.Core.Path.{◌≡◌, refl, sym, subst}
use mathlib.Core.Bool.{Bool, true, false, ◌||◌}
use mathlib.Core.Option.{Option, none, some}
use mathlib.Core.List.{List, [], ◌∷◌, ◌++◌}
use native.Mathlib.Omega.{arith}
use markmonica.Base.Tests.{ltb, ◌==◌, if◌then◌else◌, bit}

-- The one of two rows with the greater key, the first on a tie.
abbrev pub newer {ℓ} : {A : Type ℓ} → (A → ℕ) → A → Option A → Option A
newer key x none = some x
newer key x (some y) = if ltb (key x) (key y) then some y else some x

-- The one of two rows with the lesser key, the first on a tie.
abbrev pub older {ℓ} : {A : Type ℓ} → (A → ℕ) → A → Option A → Option A
older key x none = some x
older key x (some y) = if ltb (key y) (key x) then some y else some x

module _ {ℓ} {A : Type ℓ} where
  abbrev pub length : List A → ℕ
  length [] = 0
  length (x ∷ xs) = suc (length xs)

  -- `xs[:n]` and `xs[n:]`
  abbrev pub take : ℕ → List A → List A
  take zero xs = []
  take (suc n) [] = []
  take (suc n) (x ∷ xs) = x ∷ take n xs

  abbrev pub drop : ℕ → List A → List A
  drop zero xs = xs
  drop (suc n) [] = []
  drop (suc n) (x ∷ xs) = drop n xs

  -- The first row that passes.
  unfoldable pub find : (A → Bool) → List A → Option A
  find p [] = none
  find p (x ∷ xs) = if p x then some x else find p xs

  -- `UPDATE ... WHERE id = ...`: the first row that passes is replaced.
  unfoldable pub put : (A → Bool) → A → List A → List A
  put p y [] = []
  put p y (x ∷ xs) = if p x then y ∷ xs else x ∷ put p y xs

  -- `SELECT ... WHERE p`
  unfoldable pub select : (A → Bool) → List A → List A
  select p [] = []
  select p (x ∷ xs) = let rest = select p xs in if p x then x ∷ rest else rest

  unfoldable pub any : (A → Bool) → List A → Bool
  any p [] = false
  any p (x ∷ xs) = p x || any p xs

  unfoldable pub count : (A → Bool) → List A → ℕ
  count p [] = 0
  count p (x ∷ xs) = bit (p x) + count p xs

  -- `SELECT SUM(f) ... WHERE p`, 0 on no row.
  unfoldable pub sum_of : (A → Bool) → (A → ℕ) → List A → ℕ
  sum_of p f [] = 0
  sum_of p f (x ∷ xs) = (if p x then f x else 0) + sum_of p f xs

  -- A row that is found passes the test.
  pub find_passes : (p : A → Bool) (xs : List A) {x : A} → find p xs ≡ some x → p x ≡ true
  unfolding find
  find_passes p [] e = cc
  find_passes p (y ∷ ys) {x} e = ground (arith, find_passes p ys {x = x})

  pub count-put :
      (p q : A → Bool) (y : A) (xs : List A) {x : A}
      → find q xs ≡ some x
      → count p (put q y xs) + bit (p x) ≡ count p xs + bit (p y)
  unfolding find put count
  count-put p q y [] e = cc
  count-put p q y (z ∷ zs) {x} e = ground (arith, count-put p q y zs {x = x})

  pub sum_of-put :
      (p q : A → Bool) (f : A → ℕ) (y : A) (xs : List A) {x : A}
      → find q xs ≡ some x
      → sum_of p f (put q y xs) + (if p x then f x else 0)
        ≡ sum_of p f xs + (if p y then f y else 0)
  unfolding find put sum_of
  sum_of-put p q f y [] e = cc
  sum_of-put p q f y (z ∷ zs) {x} e = ground (arith, sum_of-put p q f y zs {x = x})

  pub find-put :
      (q : A → Bool) (y : A) (xs : List A) {x : A}
      → find q xs ≡ some x
      → q y ≡ true
      → find q (put q y xs) ≡ some y
  unfolding find put
  find-put q y [] e h = cc
  find-put q y (z ∷ zs) {x} e h = ground (arith, find-put q y zs {x = x})

  -- A test that no row passes has count 0, and conversely.
  pub any-false : (p : A → Bool) (xs : List A) → any p xs ≡ false → count p xs ≡ 0
  unfolding any count
  any-false p [] h = refl
  any-false p (x ∷ xs) h = ground (arith, any-false p xs)

  pub count_zero : (p : A → Bool) (xs : List A) → count p xs ≡ 0 → any p xs ≡ false
  unfolding any count
  count_zero p [] h = refl
  count_zero p (x ∷ xs) h = ground (arith, count_zero p xs)

  pub count-append : (p : A → Bool) (xs ys : List A) → count p (xs ++ ys) ≡ count p xs + count p ys
  unfolding count
  count-append p [] ys = omega arith
  count-append p (x ∷ xs) ys = omega (arith, count-append p xs ys)

  pub sum_of-append :
      (p : A → Bool) (f : A → ℕ) (xs ys : List A)
      → sum_of p f (xs ++ ys) ≡ sum_of p f xs + sum_of p f ys
  unfolding sum_of
  sum_of-append p f [] ys = omega arith
  sum_of-append p f (x ∷ xs) ys = omega (arith, sum_of-append p f xs ys)

  -- A row that is found and passes another test too is counted by it.
  pub count_found :
      (p q : A → Bool) (xs : List A) {x : A} → find q xs ≡ some x → p x ≡ true → 1 ≤ count p xs
  unfolding find count
  count_found p q [] e h = cc
  count_found p q (y ∷ ys) {x} e h = ground (arith, count_found p q ys {x = x})

  -- A weaker test counts at least as many rows.
  pub count_mono :
      (p q : A → Bool)
      → ((x : A) → p x ≡ true → q x ≡ true)
      → (xs : List A) → count p xs ≤ count q xs
  unfolding count
  count_mono p q h [] = omega arith
  count_mono p q h (x ∷ xs) = ground (arith, h x, count_mono p q h xs)

  -- A write of a row that fails the test adds none to its count.
  pub count-put-false :
      (p q : A → Bool) (y : A) (xs : List A) → p y ≡ false → count p (put q y xs) ≤ count p xs
  unfolding put count
  count-put-false p q y [] h = omega arith
  count-put-false p q y (z ∷ zs) h = ground (arith, count-put-false p q y zs h)

  -- A write of any row adds one at most.
  pub count-put_le :
      (p q : A → Bool) (y : A) (xs : List A) → count p (put q y xs) ≤ suc (count p xs)
  unfolding put count
  count-put_le p q y [] = omega arith
  count-put_le p q y (z ∷ zs) = ground (arith, count-put_le p q y zs)

  pub find-append :
      (p : A → Bool) (xs ys : List A) {x : A} → find p xs ≡ some x → find p (xs ++ ys) ≡ some x
  unfolding find
  find-append p [] ys e = cc
  find-append p (z ∷ zs) ys {x} e = ground (arith, find-append p zs ys {x = x})

  -- The row of `xs` with the greatest key among those that pass: `ORDER BY key DESC LIMIT 1`.
  unfoldable pub latest : (A → ℕ) → (A → Bool) → List A → Option A
  latest key p [] = none
  latest key p (x ∷ xs) = let rest = latest key p xs in if p x then newer key x rest else rest

  -- A row that is found under a key has that key, and is found under its own key.
  pub find_key :
      (key : A → ℕ) (k : ℕ) (xs : List A) {x : A}
      → find (λ y. key y == k) xs ≡ some x
      → (find (λ y. key y == key x) xs ≡ some x) × (key x ≡ k)
  find_key key k xs {x} found =
      let same : key x ≡ k = ground (arith, find_passes (λ y. key y == k) xs {x = x} found) in
      (subst (λ j. find (λ y. key y == j) xs ≡ some x) (sym same) found, same)

  -- Where no row passes a test, none passes a stronger one.
  pub any_weaker :
      (p q : A → Bool)
      → ((x : A) → q x ≡ true → p x ≡ true)
      → (xs : List A) → any p xs ≡ false
      → any q xs ≡ false
  unfolding any
  any_weaker p q h [] e = refl
  any_weaker p q h (x ∷ xs) e = ground (arith, h x, any_weaker p q h xs)

  pub count-snoc :
      (p : A → Bool) (xs : List A) (x : A) → count p (xs ++ x ∷ []) ≡ count p xs + bit (p x)
  unfolding count
  count-snoc p [] x = omega arith
  count-snoc p (y ∷ ys) x = omega (arith, count-snoc p ys x)

  pub sum_of-snoc :
      (p : A → Bool) (f : A → ℕ) (xs : List A) (x : A)
      → sum_of p f (xs ++ x ∷ []) ≡ sum_of p f xs + (if p x then f x else 0)
  unfolding sum_of
  sum_of-snoc p f [] x = omega arith
  sum_of-snoc p f (y ∷ ys) x = omega (arith, sum_of-snoc p f ys x)

  -- The row of `xs` with the least key among those that pass: `ORDER BY key ASC LIMIT 1`.
  unfoldable pub earliest : (A → ℕ) → (A → Bool) → List A → Option A
  earliest key p [] = none
  earliest key p (x ∷ xs) = let rest = earliest key p xs in if p x then older key x rest else rest

  -- A write of one row leaves a lookup alone that is for other rows.
  pub find-put_other :
      (p q : A → Bool) (y : A) (xs : List A)
      → ((z : A) → q z ≡ true → p z ≡ false)
      → p y ≡ false
      → find p (put q y xs) ≡ find p xs
  unfolding find put
  find-put_other p q y [] h e = refl
  find-put_other p q y (z ∷ zs) h e = ground (arith, h z, find-put_other p q y zs h)

  -- A test on what a selection keeps: none of it, or as many as before.
  pub count-select_none :
      (p q : A → Bool)
      → ((x : A) → p x ≡ true → q x ≡ false)
      → (xs : List A) → count p (select q xs) ≡ 0
  unfolding count select
  count-select_none p q h [] = refl
  count-select_none p q h (x ∷ xs) = ground (arith, h x, count-select_none p q h xs)

  pub count-select_all :
      (p q : A → Bool)
      → ((x : A) → p x ≡ true → q x ≡ true)
      → (xs : List A) → count p (select q xs) ≡ count p xs
  unfolding count select
  count-select_all p q h [] = refl
  count-select_all p q h (x ∷ xs) = ground (arith, h x, count-select_all p q h xs)
