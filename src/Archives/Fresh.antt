-- ===== src/Archives/Fresh.antt =====
-- Names in an archive: the loop over numbered names ends, and its result is a name not yet used.
use mathlib.Core.Path.{subst}
use mathlib.Core.List.{append_cancel_left, append_cancel_right}
use markmonica.Base.{
  ℕ, zero, suc, ◌+◌, ◌/◌, ◌%◌, ltb, ◌≤◌, ◌<◌, true, false, ◌≡◌, refl, sym, ap, ◌∙◌, Option, none,
  some, List, [], ◌∷◌, ◌++◌, arith, Bool-cases, inl, inr, if◌then◌else◌,
}
use markmonica.Base.Tables.{length}
use markmonica.Base.Numerals.{digits_from, show_ℕ, value_from, value-show_ℕ}
use markmonica.Base.Texts.{
  Text, text, text_eq, text_eq_iff, text_eq_refl, lower_char, lower, one_of, or_else,
}
use markmonica.Names.{path_name}
use markmonica.Storage.Batches.{AllDistinct}
use markmonica.Base.Membership.{In}
use markmonica.Model.{Media}
use markmonica.Archives.{
  ArchiveTools, Built, done, ◌>>◌, write_items, numbered, number_from, unique_name, split_name,
}

lower-append : (s t : Text) → lower (s ++ t) ≡ lower s ++ lower t
unfolding lower
lower-append [] t = refl
lower-append (c ∷ s) t = rw (lower-append s t)

lower_char_digit : (d : ℕ) → d < 10 → lower_char (48 + d) ≡ 48 + d
unfolding lower_char
lower_char_digit d h = ground arith

lower-digits_from :
    (fuel n : ℕ) (acc : Text) → lower (digits_from fuel n acc) ≡ digits_from fuel n (lower acc)
unfolding lower digits_from
lower-digits_from zero n acc = refl
lower-digits_from (suc fuel) n acc = elim (Bool-cases (ltb n 10)) [
  | inl last ↦
      let digit : lower_char (48 + n) ≡ 48 + n = lower_char_digit n (ground arith) in
      rw last (ap (λ c. c ∷ lower acc) digit)
  | inr more ↦
      let digit : lower_char (48 + n % 10) ≡ 48 + n % 10 =
        lower_char_digit (n % 10) (omega arith) in
      rw more (
        lower-digits_from fuel (n / 10) ((48 + n % 10) ∷ acc)
        ∙ ap (λ c. digits_from fuel (n / 10) (c ∷ lower acc)) digit)
]

lower-show_ℕ : (n : ℕ) → lower (show_ℕ n) ≡ show_ℕ n
unfolding show_ℕ lower
lower-show_ℕ n = lower-digits_from (suc n) n []

lower-numbered :
    (stem suffix : Text) (n : ℕ)
    → lower (numbered stem suffix n) ≡ lower (stem ++ text "-") ++ show_ℕ n ++ lower suffix
unfolding numbered
lower-numbered stem suffix n =
    lower-append (stem ++ text "-" ++ show_ℕ n) suffix
    ∙ ap (λ t. t ++ lower suffix)
        (lower-append (stem ++ text "-") (show_ℕ n)
          ∙ ap (λ t. lower (stem ++ text "-") ++ t) (lower-show_ℕ n))

-- Numbered names differ, up to case, where their numbers do.
numbered_injective :
    (stem suffix : Text) (m n : ℕ)
    → lower (numbered stem suffix m) ≡ lower (numbered stem suffix n)
    → m ≡ n
numbered_injective stem suffix m n e =
    let whole = sym (lower-numbered stem suffix m) ∙ e ∙ lower-numbered stem suffix n in
    let front =
      append_cancel_right (lower (stem ++ text "-") ++ show_ℕ m)
        (lower (stem ++ text "-") ++ show_ℕ n) (lower suffix) whole in
    let digits = append_cancel_left (lower (stem ++ text "-")) (show_ℕ m) (show_ℕ n) front in
    sym (value-show_ℕ m) ∙ ap (value_from 0) digits ∙ value-show_ℕ n

-- A list without the first occurrence of a text.
without : Text → List Text → List Text
without t [] = []
without t (u ∷ us) = if text_eq t u then us else u ∷ without t us

length-without :
    (t : Text) (us : List Text) → one_of t us ≡ true → suc (length (without t us)) ≡ length us
unfolding without one_of
length-without t [] h = cc
length-without t (u ∷ us) h = ground (arith, length-without t us)

one_of-without :
    (t u : Text) (us : List Text)
    → one_of u us ≡ true
    → text_eq u t ≡ false
    → one_of u (without t us) ≡ true
unfolding without one_of
one_of-without t u [] h apart = cc
one_of-without t u (v ∷ vs) h apart =
    ground (arith, one_of-without t u vs, text_eq_iff t v, text_eq_iff u v)

module _ (stem suffix : Text) (used : List Text) where
  -- Every later candidate that is used is among `rest`, which has fewer names than there is fuel.
  number_from_ends :
      (fuel n : ℕ) (rest : List Text)
      → length rest < fuel
      → ((k : ℕ)
          → n ≤ k
          → one_of (lower (numbered stem suffix k)) used ≡ true
          → one_of (lower (numbered stem suffix k)) rest ≡ true)
      → (name : Text) × (number_from fuel stem suffix used n ≡ some name)
        × (one_of (lower name) used ≡ false)
  unfolding number_from
  number_from_ends zero n rest short later = absurd (omega arith)
  number_from_ends (suc fuel) n rest short later =
      elim (Bool-cases (one_of (lower (numbered stem suffix n)) used)) [
        | inr free ↦ rw free (numbered stem suffix n, refl, free)
        | inl taken ↦
            let c = lower (numbered stem suffix n) in
            let here = later n (omega arith) taken in
            let ih =
              number_from_ends fuel (n + 1) (without c rest)
                (omega (arith, length-without c rest here))
                (λ k after hit.
                  one_of-without c (lower (numbered stem suffix k)) rest (later k (omega arith) hit)
                    (differ k n after)) in
            rw taken ih
      ]
    where
      differ :
          (k n : ℕ)
          → n + 1 ≤ k
          → text_eq (lower (numbered stem suffix k)) (lower (numbered stem suffix n)) ≡ false
      differ k n after =
          elim (Bool-cases
            (text_eq (lower (numbered stem suffix k)) (lower (numbered stem suffix n)))) [
              | inr apart ↦ apart
              | inl same ↦
                  let alike =
                    (text_eq_iff (lower (numbered stem suffix k))
                        (lower (numbered stem suffix n))).0
                      same in
                  absurd (omega (arith, numbered_injective stem suffix k n alike))
            ]

-- `_unique_name` ends, whatever names are used: one more round than there are used names is
-- enough, and the name that it gives is, up to case, none of them.
pub unique_name_fresh :
    (name : Text) (used : List Text)
    → (fresh : Text) × (unique_name name used ≡ some fresh) × (one_of (lower fresh) used ≡ false)
unfolding unique_name
unique_name_fresh name used = elim (Bool-cases (one_of (lower (path_name name)) used)) [
  | inr free ↦ rw (unique_name, free) (path_name name, refl, free)
  | inl taken ↦
      let parts = split_name (path_name name) in
      rw (unique_name, taken)
        (number_from_ends (or_else parts.0 (text "memory")) parts.1 used (suc (length used)) 2 used
          (omega arith) (λ k after hit. hit))
]

In_used : (t : Text) (us : List Text) → In t us → one_of t us ≡ true
unfolding one_of
In_used t [] i = absurd i
In_used t (u ∷ us) (inl e) = rw (← e, text_eq_refl t) refl
In_used t (u ∷ us) (inr i) = ground (arith, In_used t us i)

unused : (t : Text) (us : List Text) → one_of t us ≡ false → ¬ In t us
unused t us free i = cc (In_used t us i)

-- A step that succeeds leaves the rest.
pub built : {A : Type 0} (e : Option Text) (k : Built A) {a : A} → (e >> k) ≡ done a → k ≡ done a
built none k h = h
built (some t) k h = cc

done_inj : {A : Type 0} {a b : A} → done a ≡ done b → a ≡ b
done_inj h = cc

written :
    (t : ArchiveTools) (used : List Text) (ms : List Media) {names : List Text}
    → write_items t used ms ≡ done names
    → AllDistinct used
    → AllDistinct names × (length names ≡ length used + length ms)
unfolding write_items
written t used [] {names} h u =
    subst (λ x. AllDistinct x × (length x ≡ length used + 0)) (done_inj h) (u, omega arith)
written t used (m ∷ ms) {names} h u =
    let (fresh, found, free) = unique_name_fresh m.original_filename used in
    let h₁ = built (t.download m.object_key) _ h in
    let h₂ = rw (found) at h₁ in
    let h₃ = built (t.write fresh) (write_items t (lower fresh ∷ used) ms) h₂ in
    let ih = written t (lower fresh ∷ used) ms h₃ (unused (lower fresh) used free, u) in
    (ih.0, omega (arith, ih.1))

-- An archive that is written has one name for each item, and no two of them are alike up to case.
pub write_items_distinct :
    (t : ArchiveTools) (ms : List Media) {names : List Text}
    → write_items t [] ms ≡ done names
    → AllDistinct names × (length names ≡ length ms)
write_items_distinct t ms h = let w = written t [] ms h tt in (w.0, omega (arith, w.1))
