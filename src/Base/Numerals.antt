-- ===== src/Base/Numerals.antt =====
-- Decimal numerals: what `str` prints of a number that is not negative.
use Prim.Native.Nat.{ℕ, zero, suc, ◌+◌, ◌-◌, ◌*◌, ◌/◌, ◌%◌, ◌<◌}
use mathlib.Core.Path.{◌≡◌, ap, ◌∙◌}
use mathlib.Core.Logic.{inl, inr}
use native.Mathlib.Omega.{arith}
use mathlib.Core.List.{[], ◌∷◌}
use markmonica.Base.Tests.{ltb, Bool-cases, if◌then◌else◌}
use markmonica.Base.Texts.{Text}

-- The digits of `n` before those of `acc`; one round of fuel prints one digit.
unfoldable pub digits_from : ℕ → ℕ → Text → Text
digits_from zero n acc = acc
digits_from (suc fuel) n acc =
    let rest = digits_from fuel (n / 10) ((48 + n % 10) ∷ acc) in
    if ltb n 10 then (48 + n) ∷ acc else rest

-- `str(n)`: a number below 10 ^ f has at most f digits, so n + 1 rounds are enough.
unfoldable pub show_ℕ : ℕ → Text
unfolding digits_from
show_ℕ n = digits_from (suc n) n []

-- The number that a text of digits stands for, read on from `acc`.
unfoldable pub value_from : ℕ → Text → ℕ
value_from acc [] = acc
value_from acc (c ∷ t) = value_from (acc * 10 + (c - 48)) t

value-digits_from :
    (fuel n : ℕ) (acc : Text) → n < fuel → value_from 0 (digits_from fuel n acc) ≡ value_from n acc
unfolding digits_from value_from
value-digits_from zero n acc h = absurd (omega arith)
value-digits_from (suc fuel) n acc h = elim (Bool-cases (ltb n 10)) [
  | inl last ↦ rw last (ap (λ k. value_from k acc) (omega arith))
  | inr more ↦
      let digit : n / 10 * 10 + (48 + n % 10 - 48) ≡ n = omega arith in
      rw more (
        value-digits_from fuel (n / 10) ((48 + n % 10) ∷ acc) (ground arith)
        ∙ ap (λ k. value_from k acc) digit)
]

-- What is printed reads back as the same number; so two numbers that print alike are the same.
pub value-show_ℕ : (n : ℕ) → value_from 0 (show_ℕ n) ≡ n
unfolding show_ℕ value_from
value-show_ℕ n = value-digits_from (suc n) n [] (omega arith)
