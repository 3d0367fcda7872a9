-- ===== src/Storage/Batches.antt =====
-- The requests of a deletion: together they hold the list of keys, no key twice, and none is too
-- long.
use mathlib.Core.Bool.{true≢false}
use markmonica.Base.{
  ℕ, zero, suc, ◌≤◌, ◌≡◌, refl, Bool, true, Option, none, some, List, [], ◌∷◌, ◌++◌, arith,
  Bool-cases, inl, inr, sym, ◌∙◌,
}
use markmonica.Base.Tables.{length, take, drop}
use markmonica.Base.Membership.{In}
use markmonica.Base.Texts.{Text, text_eq_iff, truthy, one_of}
use markmonica.Http.{ok}
use markmonica.Storage.{distinct_keys, batches, add_key, send_all}

abbrev pub flatten : List (List Text) → List Text
flatten [] = []
flatten (b ∷ bs) = b ++ flatten bs

abbrev pub AllShort : ℕ → List (List Text) → Type 0
AllShort size [] = Unit
AllShort size (b ∷ bs) = (1 ≤ length b) × (length b ≤ size) × AllShort size bs

take-append-drop : (n : ℕ) (xs : List Text) → take n xs ++ drop n xs ≡ xs
take-append-drop zero xs = refl
take-append-drop (suc n) [] = refl
take-append-drop (suc n) (x ∷ xs) = rw (take-append-drop n xs)

length-drop : (n : ℕ) (xs : List Text) → length (drop n xs) ≤ length xs
length-drop zero xs = omega arith
length-drop (suc n) [] = omega arith
length-drop (suc n) (x ∷ xs) = omega (arith, length-drop n xs)

length-take : (n : ℕ) (xs : List Text) → length (take n xs) ≤ n
length-take zero xs = omega arith
length-take (suc n) [] = omega arith
length-take (suc n) (x ∷ xs) = omega (arith, length-take n xs)

-- With a round of fuel for each key, the requests hold all keys in their order, and each holds at
-- least one key and at most `suc n`.
pub batches_cover :
    (fuel n : ℕ) (keys : List Text)
    → length keys ≤ fuel
    → (flatten (batches fuel (suc n) keys) ≡ keys) × AllShort (suc n) (batches fuel (suc n) keys)
unfolding batches
batches_cover zero n [] h = (refl, tt)
batches_cover zero n (k ∷ keys) h = absurd (omega arith)
batches_cover (suc fuel) n [] h = (refl, tt)
batches_cover (suc fuel) n (k ∷ keys) h =
    let ih = batches_cover fuel n (drop n keys) (omega (arith, length-drop n keys)) in
    (rw (ih.0, take-append-drop n keys), (omega arith, omega (arith, length-take n keys), ih.1))

-- No key occurs twice.
abbrev pub AllDistinct : List Text → Type 0
AllDistinct [] = Unit
AllDistinct (k ∷ ks) = (¬ In k ks) × AllDistinct ks

pub seen_more :
    (t key : Text) (seen : List Text) → one_of t seen ≡ true → one_of t (key ∷ seen) ≡ true
unfolding one_of
seen_more t key seen h = ground arith

pub seen_now : (key : Text) (seen : List Text) → one_of key (key ∷ seen) ≡ true
unfolding one_of
seen_now key seen = rw ((text_eq_iff key key).1 refl)

-- One key of the loop, for any rest that does not name what is seen by then.
add_unseen :
    (k : Option Text) (seen : List Text) (rest : List Text → List Text) (t : Text)
    → one_of t seen ≡ true
    → ((s : List Text) → one_of t s ≡ true → ¬ In t (rest s))
    → ¬ In t (add_key k seen rest)
add_unseen none seen rest t h later = later seen h
add_unseen (some key) seen rest t h later = elim (Bool-cases (one_of key seen)) [
  | inl old ↦ rw old (later seen h)
  | inr new ↦ rw new λ i. elim i [
    | inl same ↦ true≢false (sym (rw same at h) ∙ new)
    | inr after ↦ later (key ∷ seen) (seen_more t key seen h) after
  ]
]

add_distinct :
    (k : Option Text) (seen : List Text) (rest : List Text → List Text)
    → ((s : List Text) → AllDistinct (rest s))
    → ((s : List Text) (t : Text) → one_of t s ≡ true → ¬ In t (rest s))
    → AllDistinct (add_key k seen rest)
add_distinct none seen rest ih unseen = ih seen
add_distinct (some key) seen rest ih unseen = elim (Bool-cases (one_of key seen)) [
  | inl old ↦ rw old (ih seen)
  | inr new ↦ rw new (unseen (key ∷ seen) key (seen_now key seen), ih (key ∷ seen))
]

distinct_unseen :
    (keys : List (Option Text)) (seen : List Text) (t : Text)
    → one_of t seen ≡ true
    → ¬ In t (distinct_keys seen keys)
unfolding distinct_keys
distinct_unseen [] seen t h = λ i. i
distinct_unseen (k ∷ keys) seen t h =
    add_unseen (truthy k) seen _ t h (λ s. distinct_unseen keys s t)

-- No key is deleted twice.
pub distinct_keys-AllDistinct :
    (keys : List (Option Text)) (seen : List Text) → AllDistinct (distinct_keys seen keys)
unfolding distinct_keys
distinct_keys-AllDistinct [] seen = tt
distinct_keys-AllDistinct (k ∷ keys) seen =
    add_distinct (truthy k) seen _ (distinct_keys-AllDistinct keys) (distinct_unseen keys)

-- The store accepted every request.
abbrev pub AllAccepted : (List Text → Bool) → List (List Text) → Type 0
AllAccepted request [] = Unit
AllAccepted request (b ∷ bs) = (request b ≡ true) × AllAccepted request bs

pub send_all_ok :
    (request : List Text → Bool) (bs : List (List Text)) {u : Unit {0}}
    → send_all request bs ≡ ok u
    → AllAccepted request bs
unfolding send_all
send_all_ok request [] h = tt
send_all_ok request (b ∷ bs) {u} h = elim (Bool-cases (request b)) [
  | inl accepted ↦ (accepted, send_all_ok request bs {u = u} (ground arith))
  | inr refused ↦ ground arith
]
