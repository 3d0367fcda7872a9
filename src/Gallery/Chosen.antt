-- ===== src/Gallery/Chosen.antt =====
-- The items that a list of ids names: ids without duplicates, and the rows under them.
use mathlib.Core.Path.{subst}
use mathlib.Core.Logic.{◌↔◌}
use markmonica.Base.{
  ℕ, ◌+◌, ◌≤◌, ◌≡◌, refl, sym, ◌∙◌, Bool, true, false, not, ◌&&◌, ◌||◌, ◌==◌, bit, List, [], ◌∷◌,
  arith, ==_refl, Bool-cases, inl, inr,
}
use markmonica.Base.Tables.{count, any, length, any-false, count_mono}
use markmonica.Base.Membership.{In}
use markmonica.Base.Updates.{In-any}
use markmonica.Model.{Media}
use markmonica.Archives.{id_in}
use markmonica.Archives.Downloads.{distinct_ids}
use markmonica.Uploads.Handlers.{media_has_id}
use markmonica.Gallery.{chosen}

pub id_in-In : (ids : List ℕ) (id : ℕ) → id_in ids id ≡ true → In id ids
unfolding id_in
id_in-In [] id h = cc
id_in-In (k ∷ ks) id h = elim (Bool-cases (k == id)) [
  | inl same ↦ inl (ground arith)
  | inr other ↦ inr (id_in-In ks id (rw other at h))
]

pub In-id_in : (ids : List ℕ) (id : ℕ) → In id ids → id_in ids id ≡ true
unfolding id_in
In-id_in [] id i = absurd i
In-id_in (k ∷ ks) id (inl same) = rw (same, ==_refl k) refl
In-id_in (k ∷ ks) id (inr i) = ground (arith, In-id_in ks id i)

-- The ids without duplicates are those that were not seen before.
id_in-distinct_ids :
    (ids seen : List ℕ) (id : ℕ)
    → id_in (distinct_ids seen ids) id ≡ (id_in ids id && not (id_in seen id))
unfolding id_in distinct_ids
id_in-distinct_ids [] seen id = refl
id_in-distinct_ids (k ∷ ks) seen id = elim (Bool-cases (id_in seen k)) [
  | inl old ↦ elim (Bool-cases (k == id)) [
    | inl same ↦
        let is : k ≡ id = ground arith in
        let seen_id : id_in seen id ≡ true = subst (λ n. id_in seen n ≡ true) is old in
        rw (old, id_in-distinct_ids ks seen id, seen_id, same) (ground arith)
    | inr other ↦ rw (old, other) (id_in-distinct_ids ks seen id)
  ]
  | inr new ↦ elim (Bool-cases (k == id)) [
    | inl same ↦
        let is : k ≡ id = ground arith in
        let fresh : id_in seen id ≡ false = subst (λ n. id_in seen n ≡ false) is new in
        rw (new, same, fresh) refl
    | inr other ↦ rw (new, other, id_in-distinct_ids ks (k ∷ seen) id, other) refl
  ]
]

pub id_in-distinct : (ids : List ℕ) (id : ℕ) → id_in (distinct_ids [] ids) id ≡ id_in ids id
unfolding id_in
id_in-distinct ids id = rw (id_in-distinct_ids ids [] id) (ground arith)

-- No id occurs twice.
abbrev pub NoRepeats : List ℕ → Type 0
NoRepeats [] = Unit
NoRepeats (k ∷ ks) = (id_in ks k ≡ false) × NoRepeats ks

pub distinct_ids-NoRepeats : (ids seen : List ℕ) → NoRepeats (distinct_ids seen ids)
unfolding distinct_ids id_in
distinct_ids-NoRepeats [] seen = tt
distinct_ids-NoRepeats (k ∷ ks) seen = elim (Bool-cases (id_in seen k)) [
  | inl old ↦ rw old (distinct_ids-NoRepeats ks seen)
  | inr new ↦ rw new (later_only, distinct_ids-NoRepeats ks (k ∷ seen))
]
  where
    later_only : id_in (distinct_ids (k ∷ seen) ks) k ≡ false
    later_only = rw (id_in-distinct_ids ks (k ∷ seen) k, id_in, ==_refl k) (ground arith)

count_sum :
    {A : Type 0} (p q r : A → Bool)
    → ((x : A) → bit (r x) ≡ bit (p x) + bit (q x))
    → (xs : List A) → count r xs ≡ count p xs + count q xs
unfolding count
count_sum p q r h [] = refl
count_sum p q r h (x ∷ xs) = ground (arith, h x, count_sum p q r h xs)

-- The row of an event under an id.
abbrev one_of_event : ℕ → ℕ → Media → Bool
one_of_event event_id id m = m.event_id == event_id && m.id == id

split_bit :
    (here now later : Bool)
    → (now ≡ true → later ≡ false)
    → bit (here && (now || later)) ≡ bit (here && now) + bit (here && later)
split_bit here now later h = ground arith

chosen_cons :
    (event_id k : ℕ) (ks : List ℕ) (ms : List Media)
    → id_in ks k ≡ false
    → count (chosen event_id (k ∷ ks)) ms
      ≡ count (one_of_event event_id k) ms + count (chosen event_id ks) ms
unfolding id_in
chosen_cons event_id k ks ms new =
    count_sum (one_of_event event_id k) (chosen event_id ks) (chosen event_id (k ∷ ks))
      (λ m. apart m) ms
  where
    sym_test : (a b : ℕ) → (a == b) ≡ (b == a)
    sym_test a b = ground arith

    apart :
        (m : Media)
        → bit (chosen event_id (k ∷ ks) m)
          ≡ bit (one_of_event event_id k m) + bit (chosen event_id ks m)
    apart m = rw (sym_test k m.id) (
        split_bit (m.event_id == event_id) (m.id == k) (id_in ks m.id)
          λ same. let is : k ≡ m.id = ground arith in subst (λ n. id_in ks n ≡ false) is new)

chosen_none : (event_id : ℕ) (ms : List Media) → count (chosen event_id []) ms ≡ 0
unfolding count id_in
chosen_none event_id [] = refl
chosen_none event_id (m ∷ ms) = ground (arith, chosen_none event_id ms)

module _ (event_id : ℕ) (ms : List Media)
    (single : (id : ℕ) → count (one_of_event event_id id) ms ≤ 1) where
  chosen_bound : (ids : List ℕ) → NoRepeats ids → count (chosen event_id ids) ms ≤ length ids
  chosen_bound [] u = omega (arith, chosen_none event_id ms)
  chosen_bound (k ∷ ks) (new, u) =
      omega (arith, chosen_cons event_id k ks ms new, single k, chosen_bound ks u)

  -- As many rows as ids: there is one under each.
  each_there :
      (ids : List ℕ) (id : ℕ)
      → NoRepeats ids
      → count (chosen event_id ids) ms ≡ length ids
      → In id ids
      → 1 ≤ count (one_of_event event_id id) ms
  each_there [] id u all i = absurd i
  each_there (k ∷ ks) id (new, u) all (inl same) =
      subst (λ n. 1 ≤ count (one_of_event event_id n) ms) (sym same)
        (omega (arith, chosen_cons event_id k ks ms new, single k, chosen_bound ks u))
  each_there (k ∷ ks) id (new, u) all (inr i) =
      each_there ks id u
        (omega (arith, chosen_cons event_id k ks ms new, single k, chosen_bound ks u)) i

-- Under each of the ids an item of the event, if there are as many items as distinct ids.
pub named_there :
    (event_id : ℕ) (ms : List Media) (ids : List ℕ) (id : ℕ)
    → ((k : ℕ) → count (media_has_id k) ms ≤ 1)
    → count (chosen event_id (distinct_ids [] ids)) ms ≡ length (distinct_ids [] ids)
    → In id ids
    → (m : Media) × In m ms × (m.id ≡ id) × (m.event_id ≡ event_id)
named_there event_id ms ids id unique all i =
    let single : (k : ℕ) → count (one_of_event event_id k) ms ≤ 1 = λ (k : ℕ). omega (
      arith,
      unique k,
      count_mono (one_of_event event_id k) (media_has_id k) (λ m h. ground arith) ms,
    ) in
    let among : In id (distinct_ids [] ids) =
      id_in-In (distinct_ids [] ids) id (id_in-distinct ids id ∙ In-id_in ids id i) in
    let there =
      each_there event_id ms single (distinct_ids [] ids) id (distinct_ids-NoRepeats ids []) all
        among in
    elim (Bool-cases (any (one_of_event event_id id) ms)) [
      | inl some_row ↦
          let (m, stored, fits) = In-any (one_of_event event_id id) ms some_row in
          (m, stored, ground arith, ground arith)
      | inr no_row ↦ absurd (at_least there (any-false (one_of_event event_id id) ms no_row))
    ]
  where
    at_least : {n : ℕ} → 1 ≤ n → n ≡ 0 → ⊥
    at_least a b = omega arith

-- The item is one of the event under one of the ids.
pub chosen_iff :
    (event_id : ℕ) (ids : List ℕ) (m : Media)
    → (chosen event_id (distinct_ids [] ids) m ≡ true) ↔ ((m.event_id ≡ event_id) × In m.id ids)
chosen_iff event_id ids m = (
  λ h.
      let (home, named) = both (m.event_id == event_id) (id_in (distinct_ids [] ids) m.id) h in
      (same home, id_in-In ids m.id (sym (id_in-distinct ids m.id) ∙ named)),
  λ (home, named). rw (home, ==_refl event_id) (id_in-distinct ids m.id ∙ In-id_in ids m.id named),
)
  where
    both : (a b : Bool) → (a && b) ≡ true → (a ≡ true) × (b ≡ true)
    both a b h = ground arith

    same : {a b : ℕ} → (a == b) ≡ true → a ≡ b
    same h = ground arith
