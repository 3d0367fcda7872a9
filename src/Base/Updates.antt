-- ===== src/Base/Updates.antt =====
-- Rows in the order of a key, and the write of several rows one after the other.
use markmonica.Base.Tests.{clash, ltb, ◌==◌, ==_refl, if◌then◌else◌, bit, Bool-cases}
use Prim.Native.Nat.{ℕ, zero, suc, ◌+◌, ◌≤◌, min}
use mathlib.Core.Path.{◌≡◌, refl, sym, ap, ◌∙◌}
use mathlib.Core.Logic.{inl, inr}
use mathlib.Core.Bool.{Bool, true, false, not}
use mathlib.Core.Option.{some}
use mathlib.Core.List.{List, [], ◌∷◌}
use native.Mathlib.Omega.{arith}
use markmonica.Base.Tables.{find, any, put, count, select, take, length, count-put, find-put_other}
use markmonica.Base.Membership.{In}

module _ {A : Type 0} where
  -- Every row of a list has `P`.
  abbrev pub All : (A → Type 0) → List A → Type 0
  All P [] = Unit {0}
  All P (x ∷ xs) = P x × All P xs

module _ {A : Type 0} (key : A → ℕ) where
  insert_by : A → List A → List A
  insert_by x [] = x ∷ []
  insert_by x (y ∷ ys) = if ltb (key y) (key x) then y ∷ insert_by x ys else x ∷ y ∷ ys

  -- `ORDER BY key ASC`
  unfoldable pub sort_by : List A → List A
  unfolding insert_by
  sort_by [] = []
  sort_by (x ∷ xs) = insert_by x (sort_by xs)

  count-insert_by :
      (p : A → Bool) (x : A) (xs : List A) → count p (insert_by x xs) ≡ bit (p x) + count p xs
  unfolding insert_by count
  count-insert_by p x [] = refl
  count-insert_by p x (y ∷ ys) = ground (arith, count-insert_by p x ys)

  pub count-sort_by : (p : A → Bool) (xs : List A) → count p (sort_by xs) ≡ count p xs
  unfolding sort_by count
  count-sort_by p [] = refl
  count-sort_by p (x ∷ xs) = omega (arith, count-insert_by p x (sort_by xs), count-sort_by p xs)

  length-insert_by : (x : A) (xs : List A) → length (insert_by x xs) ≡ suc (length xs)
  unfolding insert_by
  length-insert_by x [] = refl
  length-insert_by x (y ∷ ys) = ground (arith, length-insert_by x ys)

  pub length-sort_by : (xs : List A) → length (sort_by xs) ≡ length xs
  unfolding sort_by
  length-sort_by [] = refl
  length-sort_by (x ∷ xs) = omega (arith, length-insert_by x (sort_by xs), length-sort_by xs)

module _ {A : Type 0} where
  -- A test that every row of a list fails counts none.
  pub All-count_zero : (p : A → Bool) (xs : List A) → All (λ x. p x ≡ false) xs → count p xs ≡ 0
  unfolding count
  All-count_zero p [] h = refl
  All-count_zero p (x ∷ xs) (h, hs) = rw h (omega (arith, All-count_zero p xs hs))

  -- Tests that agree on every row count alike.
  pub count_ext : (p q : A → Bool) → ((x : A) → p x ≡ q x) → (xs : List A) → count p xs ≡ count q xs
  unfolding count
  count_ext p q h [] = refl
  count_ext p q h (x ∷ xs) = rw (h x, count_ext p q h xs) refl

  pub All-map : (P Q : A → Type 0) (xs : List A) → ((x : A) → P x → Q x) → All P xs → All Q xs
  All-map P Q [] f h = tt
  All-map P Q (x ∷ xs) f (h, hs) = (f x h, All-map P Q xs f hs)

  pub count-take : (p : A → Bool) (n : ℕ) (xs : List A) → count p (take n xs) ≤ count p xs
  unfolding count
  count-take p zero xs = omega arith
  count-take p (suc n) [] = omega arith
  count-take p (suc n) (x ∷ xs) = omega (arith, count-take p n xs)

  pub count-select : (p q : A → Bool) (xs : List A) → count p (select q xs) ≤ count p xs
  unfolding count select
  count-select p q [] = omega arith
  count-select p q (x ∷ xs) = ground (arith, count-select p q xs)

  pub length-select : (q : A → Bool) (xs : List A) → length (select q xs) ≡ count q xs
  unfolding count select
  length-select q [] = refl
  length-select q (x ∷ xs) = ground (arith, length-select q xs)

  pub length-take : (n : ℕ) (xs : List A) → length (take n xs) ≡ min n (length xs)
  length-take zero xs = omega arith
  length-take (suc n) [] = omega arith
  length-take (suc n) (x ∷ xs) = omega (arith, length-take n xs)

  pub All-from-In : (P : A → Type 0) (xs : List A) → ((x : A) → In x xs → P x) → All P xs
  All-from-In P [] h = tt
  All-from-In P (x ∷ xs) h = (h x (inl refl), All-from-In P xs (λ y i. h y (inr i)))

  pub All-take : (P : A → Type 0) (n : ℕ) (xs : List A) → All P xs → All P (take n xs)
  All-take P zero xs h = tt
  All-take P (suc n) [] h = tt
  All-take P (suc n) (x ∷ xs) (h, hs) = (h, All-take P n xs hs)

  select_one :
      (P : A → Type 0) (q : A → Bool) (x : A) (rest : List A)
      → P x
      → All (λ y. P y × (q y ≡ true)) rest
      → All (λ y. P y × (q y ≡ true)) (if q x then x ∷ rest else rest)
  select_one P q x rest h hs = elim (Bool-cases (q x)) [
    | inl passes ↦ rw passes ((h, passes), hs)
    | inr fails ↦ rw fails hs
  ]

  -- What a selection keeps passes its test.
  pub All-select :
      (P : A → Type 0) (q : A → Bool) (xs : List A)
      → All P xs
      → All (λ y. P y × (q y ≡ true)) (select q xs)
  unfolding select
  All-select P q [] h = tt
  All-select P q (x ∷ xs) (h, hs) = select_one P q x (select q xs) h (All-select P q xs hs)

  insert_one :
      (P : A → Type 0) (key : A → ℕ) (x : A) (xs : List A)
      → P x
      → All P xs
      → All P (insert_by key x xs)
  unfolding insert_by
  insert_one P key x [] h hs = (h, tt)
  insert_one P key x (y ∷ ys) h (k, ks) = elim (Bool-cases (ltb (key y) (key x))) [
    | inl later ↦ rw later (k, insert_one P key x ys h ks)
    | inr first ↦ rw first (h, (k, ks))
  ]

  pub All-sort_by : (P : A → Type 0) (key : A → ℕ) (xs : List A) → All P xs → All P (sort_by key xs)
  unfolding sort_by
  All-sort_by P key [] h = tt
  All-sort_by P key (x ∷ xs) (h, hs) =
      insert_one P key x (sort_by key xs) h (All-sort_by P key xs hs)

  pub All-count : (p : A → Bool) (xs : List A) → All (λ x. p x ≡ true) xs → count p xs ≡ length xs
  unfolding count
  All-count p [] h = refl
  All-count p (x ∷ xs) (h, hs) = rw h (omega (arith, All-count p xs hs))

-- Rows under an id, and a change that keeps it.
module _ {A : Type 0} (id_of : A → ℕ) (f : A → A) where
  abbrev pub has_id : ℕ → A → Bool
  has_id k x = id_of x == k

  -- Each row in turn is written back changed.
  unfoldable pub put_all : List A → List A → List A
  put_all [] xs = xs
  put_all (j ∷ js) xs = put_all js (put (has_id (id_of j)) (f j) xs)

  abbrev pub StoredIn : List A → A → Type 0
  StoredIn xs j = find (has_id (id_of j)) xs ≡ some j

  still_stored :
      (same : (x : A) → id_of (f x) ≡ id_of x) (j : A) (js xs : List A)
      → count (has_id (id_of j)) js ≡ 0
      → All (StoredIn xs) js
      → All (StoredIn (put (has_id (id_of j)) (f j) xs)) js
  unfolding count
  still_stored same j [] xs apart h = tt
  still_stored same j (k ∷ ks) xs apart (h, hs) =
      let other : (id_of j == id_of k) ≡ false = ground arith in
      let there : (id_of (f j) == id_of k) ≡ false = rw (same j) other in
      (
        find-put_other (has_id (id_of k)) (has_id (id_of j)) (f j) xs (λ z e. ground arith) there
            ∙ h,
        still_stored same j ks xs (ground arith) hs,
      )

  -- Of rows that are stored under distinct ids, each is changed once.
  pub put_all-count :
      (same : (x : A) → id_of (f x) ≡ id_of x) (p : A → Bool) (js xs : List A)
      → ((k : ℕ) → count (has_id k) js ≤ 1)
      → All (StoredIn xs) js
      → count p (put_all js xs) + count p js ≡ count p xs + count (λ x. p (f x)) js
  unfolding put_all count
  put_all-count same p [] xs u h = refl
  put_all-count same p (j ∷ js) xs u (h, hs) =
      let xs' = put (has_id (id_of j)) (f j) xs in
      let first = u (id_of j) in
      let own = ==_refl (id_of j) in
      let apart : count (has_id (id_of j)) js ≡ 0 = ground arith in
      let ih =
        put_all-count same p js xs' (λ k. omega (arith, u k))
          (still_stored same j js xs apart hs) in
      omega (arith, ih, count-put p (has_id (id_of j)) (f j) xs h)

-- A selection as membership, and the selection of what another list of rows does not name.
module _ {A : Type 0} where
  pub In-select : (q : A → Bool) (xs : List A) {x : A} → In x xs → q x ≡ true → In x (select q xs)
  unfolding select
  In-select q [] i h = absurd i
  In-select q (y ∷ ys) {x} i h = elim (Bool-cases (q y)) [
    | inl hit ↦ rw hit (elim i [ inl e ↦ inl e | inr there ↦ inr (In-select q ys there h) ])
    | inr miss ↦ rw miss (elim i [
      | inl e ↦ absurd (clash (sym (ap q e) ∙ h) miss)
      | inr there ↦ In-select q ys there h
    ])
  ]

  pub select-In : (q : A → Bool) (xs : List A) {x : A} → In x (select q xs) → In x xs × (q x ≡ true)
  unfolding select
  select-In q [] i = absurd i
  select-In q (y ∷ ys) {x} i = elim (Bool-cases (q y)) [
    | inl hit ↦ elim (rw hit at i) [
      | inl e ↦ (inl e, ap q e ∙ hit)
      | inr there ↦ let (a, b) = select-In q ys there in (inr a, b)
    ]
    | inr miss ↦ let (a, b) = select-In q ys (rw miss at i) in (inr a, b)
  ]

  pub any-In : (f : A → Bool) (xs : List A) {x : A} → In x xs → f x ≡ true → any f xs ≡ true
  unfolding any
  any-In f [] i h = absurd i
  any-In f (y ∷ ys) {x} (inl e) h = ground arith
  any-In f (y ∷ ys) {x} (inr i) h = ground (arith, any-In f ys {x = x} i h)

  pub In-any : (f : A → Bool) (xs : List A) → any f xs ≡ true → (x : A) × In x xs × (f x ≡ true)
  unfolding any
  In-any f [] h = cc
  In-any f (y ∷ ys) h = elim (Bool-cases (f y)) [
    | inl hit ↦ (y, inl refl, hit)
    | inr miss ↦ let (x, i, e) = In-any f ys (ground arith) in (x, inr i, e)
  ]

  pub count-select_cover :
      (p r : A → Bool) (xs : List A)
      → ((x : A) → In x xs → p x ≡ true → r x ≡ true)
      → count p (select (λ x. not (r x)) xs) ≡ 0
  unfolding count select
  count-select_cover p r [] h = refl
  count-select_cover p r (x ∷ xs) h =
      ground (arith, h x (inl refl), count-select_cover p r xs (λ y i. h y (inr i)))

  pub count-select_spare :
      (p r : A → Bool) (xs : List A)
      → ((x : A) → In x xs → p x ≡ true → r x ≡ false)
      → count p (select (λ x. not (r x)) xs) ≡ count p xs
  unfolding count select
  count-select_spare p r [] h = refl
  count-select_spare p r (x ∷ xs) h =
      ground (arith, h x (inl refl), count-select_spare p r xs (λ y i. h y (inr i)))
