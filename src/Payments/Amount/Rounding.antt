-- ===== src/Payments/Amount/Rounding.antt =====
-- How far the accepted amount is from what was sent.
use markmonica.Base.{
  ℕ, suc, zero, ◌+◌, ◌*◌, ◌/◌, ◌^◌, ◌≤◌, ◌<◌, Bool, true, false, ◌≡◌, some, arith, ◌&&◌, ltb,
}
use markmonica.Base.Int.{ℤ, negsuc}
use markmonica.Http.{ok}
use markmonica.Payments.Amount.{finite, cents, within_precision, received_cents}

received_cents_ok :
    (negative : Bool) (c : ℕ) (e : ℤ) {n : ℕ}
    → received_cents (some (finite negative c e)) ≡ ok n
    → (n ≡ cents c e) × (within_precision n ≡ true) × ((negative && ltb 0 n) ≡ false)
unfolding received_cents
received_cents_ok negative c e {n} h = ground arith

power_positive : (k : ℕ) → 1 ≤ 10 ^ k
power_positive zero = omega arith
power_positive (suc k) = omega (arith, power_positive k)

nearest :
    (c p : ℕ)
    → 1 ≤ p
    → let n = (2 * c + p) / (2 * p) in (2 * (n * p) ≤ 2 * c + p) × (2 * c < 2 * (n * p) + p)
nearest c p h = (grind arith, grind arith)

-- An amount with three or more digits after the point (`c` over ten to the `k + 1`, in cents)
-- that is accepted is accepted as the number of cents nearest to it, half a cent counting as a
-- whole one; and one with a minus sign is accepted as no cents only.
pub received_cents_nearest :
    (negative : Bool) (c k n : ℕ)
    → received_cents (some (finite negative c (negsuc (suc (suc k))))) ≡ ok n
    → (2 * (n * 10 ^ suc k) ≤ 2 * c + 10 ^ suc k)
      × (2 * c < 2 * (n * 10 ^ suc k) + 10 ^ suc k)
      × ((negative && ltb 0 n) ≡ false)
unfolding cents
received_cents_nearest negative c k n h =
    let (is, _, sign) = received_cents_ok negative c (negsuc (suc (suc k))) h in
    let near = nearest c (10 ^ suc k) (power_positive (suc k)) in
    rw is (near.0, near.1, rw (← is) sign)
