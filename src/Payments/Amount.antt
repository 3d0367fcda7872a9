-- ===== src/Payments/Amount.antt =====
-- The amount of a notification (`amount_gross` in `payfast_notify`, app/main.py): a decimal is
-- rounded to cents, and refused if it is negative or no number.
pub mod Rounding
use markmonica.Base.{
  ℕ, zero, suc, ◌+◌, ◌*◌, ◌/◌, ◌^◌, Bool, ◌&&◌, Option, none, some, ltb, if◌then◌else◌,
}
use markmonica.Base.Int.{ℤ, pos, negsuc}
use markmonica.Http.{Result, ok, err, http}

-- A value of Python's `Decimal`: sign, coefficient and exponent of ten, or an infinity or NaN.
pub data Decimal : Type 0 where
  finite : Bool → ℕ → ℤ → Decimal
  not_finite : Decimal

-- The coefficient of `quantize(Decimal("0.01"), ROUND_HALF_UP)`: a tie goes away from zero.
unfoldable pub cents : ℕ → ℤ → ℕ
cents c (pos e) = c * 10 ^ (e + 2)
cents c (negsuc zero) = c * 10
cents c (negsuc (suc zero)) = c
cents c (negsuc (suc (suc k))) = (2 * c + 10 ^ suc k) / (2 * 10 ^ suc k)

-- A coefficient of more than 28 digits, the context's precision, raises `InvalidOperation`.
abbrev pub within_precision : ℕ → Bool
within_precision n = ltb n (10 ^ 28)

-- The `try` block: `none` is a decimal that Python cannot read.
unfoldable pub received_cents : Option Decimal → Result ℕ
received_cents none = err (http 400)
received_cents (some not_finite) = err (http 400)
received_cents (some (finite negative c e)) =
    let n = cents c e in
    if within_precision n
    then (if negative && ltb 0 n then err (http 400) else ok n)
    else err (http 400)
