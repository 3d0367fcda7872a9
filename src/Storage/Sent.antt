-- ===== src/Storage/Sent.antt =====
-- What a deletion from the object store has sent: the keys of the call, all of them and no others.
use mathlib.Core.Path.{subst}
use markmonica.Base.{
  ◌≡◌, ◌≢◌, refl, sym, ◌⊎◌, Bool, true, Option, none, some, some_inj, List, [], ◌∷◌, arith,
  Bool-cases, inl, inr,
}
use markmonica.Base.Tables.{length}
use markmonica.Base.Membership.{In}
use markmonica.Base.Texts.{Text, text_eq, text_eq_iff, truthy, one_of}
use markmonica.Http.{ok}
use markmonica.Storage.{distinct_keys, batches, add_key, delete_objects, batch}
use markmonica.Storage.Batches.{
  flatten, AllShort, AllDistinct, AllAccepted, batches_cover, distinct_keys-AllDistinct,
  send_all_ok,
}

-- What the requests of a deletion are, for the keys of the call.
pub record Sent (request : List Text → Bool) (keys : List (Option Text)) : Type 0 where
  pub requests : List (List Text)
  -- every key of the call that is not empty is named
  pub complete : (t : Text) → In (some t) keys → t ≢ [] → In t (flatten requests)
  -- what is named is a key of the call
  pub sound : (t : Text) → In t (flatten requests) → In (some t) keys × (t ≢ [])
  -- and nothing twice
  pub distinct : AllDistinct (flatten requests)
  pub sizes : AllShort 1000 requests
  pub accepted : AllAccepted request requests

-- A loop over keys that has named `t`, or has seen it before.
abbrev Covered : Text → List Text → List Text → Type 0
Covered t seen named = (one_of t seen ≡ true) ⊎ In t named

one_of_head :
    (t key : Text) (seen : List Text)
    → one_of t (key ∷ seen) ≡ true
    → (t ≡ key) ⊎ (one_of t seen ≡ true)
unfolding one_of
one_of_head t key seen h = elim (Bool-cases (text_eq t key)) [
  | inl same ↦ inl ((text_eq_iff t key).0 same)
  | inr other ↦ inr (rw other at h)
]

add_now :
    (t : Text) (seen : List Text) (rest : List Text → List Text)
    → Covered t seen (add_key (some t) seen rest)
add_now t seen rest = elim (Bool-cases (one_of t seen)) [
  | inl old ↦ inl old
  | inr new ↦ inr (rw new (inl refl))
]

add_later :
    (k : Option Text) (seen : List Text) (rest : List Text → List Text) (t : Text)
    → ((s : List Text) → Covered t s (rest s))
    → Covered t seen (add_key k seen rest)
add_later none seen rest t later = later seen
add_later (some key) seen rest t later = elim (Bool-cases (one_of key seen)) [
  | inl old ↦ rw old (later seen)
  | inr new ↦ rw new (elim (later (key ∷ seen)) [
    | inl named ↦ elim (one_of_head t key seen named) [
      | inl same ↦ inr (inl same)
      | inr before ↦ inl before
    ]
    | inr after ↦ inr (inr after)
  ])
]

add_sound :
    (k : Option Text) (seen : List Text) (rest : List Text → List Text) (t : Text)
    → In t (add_key k seen rest)
    → (k ≡ some t) ⊎ ((s : List Text) × In t (rest s))
add_sound none seen rest t i = inr (seen, i)
add_sound (some key) seen rest t i = elim (Bool-cases (one_of key seen)) [
  | inl old ↦ inr (seen, rw old at i)
  | inr new ↦ first (rw new at i)
]
  where
    first : In t (key ∷ rest (key ∷ seen)) → (some key ≡ some t) ⊎ ((s : List Text) × In t (rest s))
    first (inl same) = inl (cc)
    first (inr after) = inr (key ∷ seen, after)

truthy_given : (t : Text) → t ≢ [] → truthy (some t) ≡ some t
truthy_given [] h = absurd (h refl)
truthy_given (c ∷ t) h = refl

given_truthy : (k : Option Text) (t : Text) → truthy k ≡ some t → (some t ≡ k) × (t ≢ [])
given_truthy none t h = cc
given_truthy (some []) t h = cc
given_truthy (some (c ∷ s)) t h = (sym h, λ e. clash_nil (some_inj h) e)
  where
    clash_nil : c ∷ s ≡ t → t ≡ [] → ⊥
    clash_nil a b = cc

distinct_complete :
    (keys : List (Option Text)) (seen : List Text) (t : Text)
    → t ≢ []
    → In (some t) keys
    → Covered t seen (distinct_keys seen keys)
unfolding distinct_keys
distinct_complete [] seen t given i = absurd i
distinct_complete (k ∷ keys) seen t given (inl same) =
    subst (λ o. Covered t seen (add_key (truthy o) seen (λ s. distinct_keys s keys))) same
      (rw (truthy_given t given) (add_now t seen (λ s. distinct_keys s keys)))
distinct_complete (k ∷ keys) seen t given (inr i) =
    add_later (truthy k) seen _ t (λ s. distinct_complete keys s t given i)

distinct_sound :
    (keys : List (Option Text)) (seen : List Text) (t : Text)
    → In t (distinct_keys seen keys)
    → In (some t) keys × (t ≢ [])
unfolding distinct_keys
distinct_sound [] seen t i = absurd i
distinct_sound (k ∷ keys) seen t i =
    elim (add_sound (truthy k) seen (λ s. distinct_keys s keys) t i) [
      | inl now ↦ let (same, given) = given_truthy k t now in (inl same, given)
      | inr (s, later) ↦ let (there, given) = distinct_sound keys s t later in (inr there, given)
    ]

named_first : (t : Text) (named : List Text) → Covered t [] named → In t named
unfolding one_of
named_first t named (inl seen) = cc
named_first t named (inr i) = i

-- A deletion that succeeds has sent requests of one key at least and a thousand at most, all of
-- them accepted, which together name every key of the call that is not empty, no other key, and no
-- key twice.
pub delete_objects_sends :
    (request : List Text → Bool) (keys : List (Option Text)) {u : Unit {0}}
    → delete_objects request keys ≡ ok u
    → Sent request keys
unfolding delete_objects
delete_objects_sends request keys {u} h =
    let ks = distinct_keys [] keys in
    let cover = batches_cover (length ks) 999 ks (omega arith) in
    record {
      requests = batches (length ks) batch ks;
      complete = λ t i given.
          subst (λ xs. In t xs) (sym cover.0)
            (named_first t ks (distinct_complete keys [] t given i));
      sound = λ t i. distinct_sound keys [] t (subst (λ xs. In t xs) cover.0 i);
      distinct = subst AllDistinct (sym cover.0) (distinct_keys-AllDistinct keys []);
      sizes = cover.1;
      accepted = send_all_ok request (batches (length ks) batch ks) {u = u} h;
    }
