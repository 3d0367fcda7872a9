-- ===== src/Base/Membership.antt =====
-- Rows that occur in a table, and lookups by a key that no two rows share.
use Prim.Native.Nat.{ℕ, ◌≤◌}
use mathlib.Core.Path.{◌≡◌, refl}
use mathlib.Core.Logic.{◌≢◌, ◌⊎◌, inl, inr}
use mathlib.Core.Bool.{Bool, true}
use mathlib.Core.Option.{Option, none, some}
use mathlib.Core.List.{List, [], ◌∷◌}
use native.Mathlib.Omega.{arith}
use markmonica.Base.Tests.{Bool-cases}
use markmonica.Base.Tables.{find, put, count, latest, newer, earliest, older}

module _ {A : Type 0} where
  -- Occurrence in a list, as a type that computes.
  abbrev pub In : A → List A → Type 0
  In x [] = ⊥
  In x (y ∷ ys) = (x ≡ y) ⊎ In x ys

  newer_cases :
      (key : A → ℕ) (y : A) (r : Option A) {x : A} → newer key y r ≡ some x → (x ≡ y) ⊎ (r ≡ some x)
  newer_cases key y none e = ground arith
  newer_cases key y (some z) e = ground arith

  -- The latest row occurs in the table and passes the test.
  pub latest-In :
      (key : A → ℕ) (p : A → Bool) (xs : List A) {x : A}
      → latest key p xs ≡ some x
      → In x xs × (p x ≡ true)
  unfolding latest
  latest-In key p [] e = cc
  latest-In key p (y ∷ ys) {x} e = elim (Bool-cases (p y)) [
    | inl passes ↦
        ground (arith, newer_cases key y (latest key p ys) {x = x}, latest-In key p ys {x = x})
    | inr fails ↦ ground (arith, latest-In key p ys {x = x})
  ]

  older_cases :
      (key : A → ℕ) (y : A) (r : Option A) {x : A} → older key y r ≡ some x → (x ≡ y) ⊎ (r ≡ some x)
  older_cases key y none e = ground arith
  older_cases key y (some z) e = ground arith

  -- The earliest row occurs in the table and passes the test; there is one if any row passes.
  pub earliest-In :
      (key : A → ℕ) (p : A → Bool) (xs : List A) {x : A}
      → earliest key p xs ≡ some x
      → In x xs × (p x ≡ true)
  unfolding earliest
  earliest-In key p [] e = cc
  earliest-In key p (y ∷ ys) {x} e = elim (Bool-cases (p y)) [
    | inl passes ↦
        ground (arith, older_cases key y (earliest key p ys) {x = x}, earliest-In key p ys {x = x})
    | inr fails ↦ ground (arith, earliest-In key p ys {x = x})
  ]

  older_some : (key : A → ℕ) (y : A) (r : Option A) → older key y r ≢ none
  older_some key y none e = cc
  older_some key y (some z) e = ground arith

  pub earliest-none :
      (key : A → ℕ) (p : A → Bool) (xs : List A) → earliest key p xs ≡ none → count p xs ≡ 0
  unfolding earliest count
  earliest-none key p [] e = refl
  earliest-none key p (y ∷ ys) e = elim (Bool-cases (p y)) [
    | inl passes ↦ absurd (older_some key y (earliest key p ys) (rw passes at e))
    | inr fails ↦ rw fails (omega (arith, earliest-none key p ys (rw fails at e)))
  ]

  pub count-In : (p : A → Bool) (xs : List A) {x : A} → In x xs → p x ≡ true → 1 ≤ count p xs
  unfolding count
  count-In p [] m h = absurd m
  count-In p (y ∷ ys) {x} (inl e) h = ground arith
  count-In p (y ∷ ys) {x} (inr m) h = ground (arith, count-In p ys {x = x} m h)

  -- With at most one row under a key, a lookup finds the row that is there.
  pub find_unique :
      (p : A → Bool) (xs : List A) {x : A}
      → In x xs
      → p x ≡ true
      → count p xs ≤ 1
      → find p xs ≡ some x
  unfolding find count
  find_unique p [] m h u = absurd m
  find_unique p (y ∷ ys) {x} (inl e) h u = ground arith
  find_unique p (y ∷ ys) {x} (inr m) h u =
      ground (arith, count-In p ys {x = x} m h, find_unique p ys {x = x} m h)

  pub find-In : (p : A → Bool) (xs : List A) {x : A} → find p xs ≡ some x → In x xs
  unfolding find
  find-In p [] e = cc
  find-In p (y ∷ ys) {x} e = elim (Bool-cases (p y)) [
    | inl hit ↦ inl (ground arith)
    | inr miss ↦ inr (find-In p ys (ground arith))
  ]

  -- A lookup by a stronger test finds the one row under the key.
  pub find_stronger :
      (p q : A → Bool) (xs : List A) {x : A}
      → find p xs ≡ some x
      → q x ≡ true
      → count q xs ≤ 1
      → find q xs ≡ some x
  find_stronger p q xs e h u = find_unique q xs (find-In p xs e) h u

  pub find_weaker :
      (p q : A → Bool) (xs : List A) {x : A}
      → ((z : A) → p z ≡ true → q z ≡ true)
      → find p xs ≡ some x
      → (y : A) × (find q xs ≡ some y)
  unfolding find
  find_weaker p q [] h e = cc
  find_weaker p q (z ∷ zs) {x} h e = elim (Bool-cases (q z)) [
    | inl hit ↦ (z, rw hit refl)
    | inr miss ↦ let (y, f) = find_weaker p q zs {x = x} h (ground (arith, h z)) in (y, rw miss f)
  ]

  -- The row that a write puts under a key is the one that a stronger test finds.
  pub find-put_stronger :
      (p q : A → Bool) (y : A) (xs : List A) {x : A}
      → ((z : A) → p z ≡ true → q z ≡ true)
      → find q xs ≡ some x
      → p y ≡ true
      → find p (put q y xs) ≡ some y
  unfolding find put
  find-put_stronger p q y [] h e k = cc
  find-put_stronger p q y (z ∷ zs) {x} h e k =
      ground (arith, h z, find-put_stronger p q y zs {x = x} h)
