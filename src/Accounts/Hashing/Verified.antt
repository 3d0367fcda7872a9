-- ===== src/Accounts/Hashing/Verified.antt =====
-- A password is verified against its hash.
use mathlib.Core.Logic.{◌↔◌}
use markmonica.Base.{
  none-some, some_inj, ℕ, zero, suc, ◌+◌, ◌*◌, ◌/◌, ◌%◌, ◌<◌, Bool, true, false, not, ◌&&◌, ◌||◌,
  ◌≡◌, refl, sym, ap, ◌∙◌, Option, none, some, List, [], ◌∷◌, ◌++◌, arith, leb, ◌==◌, if◌then◌else◌,
  Option-cases, inl, inr, ==_refl,
}
use markmonica.Base.Updates.{All}
use markmonica.Base.Numerals.{show_ℕ}
use markmonica.Base.Texts.{Text, text, text_eq, text_eq_iff, text_eq_refl}
use markmonica.Accounts.Hashing.{
  pbkdf2_iterations, hex_digit, hex, read_hex_digit, read_byte, from_hex, read_int, split, add_char,
  dollar, hash_password, verify_password,
}

abbrev pub IsBytes : List ℕ → Type 0
IsBytes bs = All (λ b. b < 256) bs

hex_digit_read : (n : ℕ) → n < 16 → read_hex_digit (hex_digit n) ≡ some n
hex_digit_read n h = ground arith

hex_digit_plain : (n : ℕ) → n < 16 → (hex_digit n == dollar) ≡ false
hex_digit_plain n h = ground arith

hex_digit_visible :
    (n : ℕ) → n < 16 → ((leb 9 (hex_digit n) && leb (hex_digit n) 13) || hex_digit n == 32) ≡ false
hex_digit_visible n h = ground arith

pub from_hex-hex : (bs : List ℕ) → IsBytes bs → from_hex (hex bs) ≡ some bs
unfolding from_hex hex
from_hex-hex [] h = refl
from_hex-hex (b ∷ bs) (h, hs) =
    let joined : b / 16 * 16 + b % 16 ≡ b = omega arith in
    rw
      (
        hex_digit_visible (b / 16) (omega arith),
        hex_digit_read (b / 16) (omega arith),
        hex_digit_read (b % 16) (omega arith),
        from_hex-hex bs hs,
        joined,
      )
      refl

-- No character of a text is `c`.
abbrev Lacks : ℕ → Text → Type 0
Lacks c t = All (λ d. (d == c) ≡ false) t

hex-Lacks : (bs : List ℕ) → IsBytes bs → Lacks dollar (hex bs)
unfolding hex
hex-Lacks [] h = tt
hex-Lacks (b ∷ bs) (h, hs) = (
  hex_digit_plain (b / 16) (omega arith),
  (hex_digit_plain (b % 16) (omega arith), hex-Lacks bs hs),
)

split-append : (c n : ℕ) (p t : Text) → Lacks c p → split c (suc n) (p ++ c ∷ t) ≡ p ∷ split c n t
unfolding split
split-append c n [] t h = rw (==_refl c) refl
split-append c n (d ∷ p) t (h, hs) = rw (h, split-append c n p t hs) refl

split_last : (c : ℕ) (t : Text) → split c 0 t ≡ t ∷ []
unfolding split
split_last c [] = refl
split_last c (d ∷ t) = refl

iterations_read : read_int (show_ℕ pbkdf2_iterations) ≡ some pbkdf2_iterations
unfolding read_int show_ℕ markmonica.Base.Numerals.digits_from
    markmonica.Accounts.Hashing.read_digits markmonica.Base.Texts.strip
iterations_read = refl

method_Lacks : Lacks dollar (text "pbkdf2_sha256")
method_Lacks = (
  refl,
  (
    refl,
    (refl, (refl, (refl, (refl, (refl, (refl, (refl, (refl, (refl, (refl, (refl, tt))))))))))),
  ),
)

iterations_Lacks : Lacks dollar (show_ℕ pbkdf2_iterations)
unfolding show_ℕ markmonica.Base.Numerals.digits_from
iterations_Lacks = (refl, (refl, (refl, (refl, (refl, (refl, tt))))))

hex_injective : (a b : List ℕ) → IsBytes a → IsBytes b → hex a ≡ hex b → a ≡ b
hex_injective a b h k e = some_inj (sym (from_hex-hex a h) ∙ ap from_hex e ∙ from_hex-hex b k)

module _ (pbkdf2 : Text → List ℕ → ℕ → Option (List ℕ)) (salt : List ℕ) (bytes : IsBytes salt) where
  -- What a check does with a hash that `hash_password` has made.
  verify_computes :
      (given : Text) (digest digest' : List ℕ)
      → pbkdf2 given salt pbkdf2_iterations ≡ some digest'
      → verify_password pbkdf2 given (
          text "pbkdf2_sha256"
          ++ dollar ∷ (show_ℕ pbkdf2_iterations ++ dollar ∷ (hex salt ++ dollar ∷ hex digest)))
        ≡ text_eq (hex digest') (hex digest)
  unfolding verify_password
  verify_computes given digest digest' derives =
      let method = text "pbkdf2_sha256" in
      rw
        (
          split-append dollar 2 method
              (show_ℕ pbkdf2_iterations ++ dollar ∷ (hex salt ++ dollar ∷ hex digest)) method_Lacks,
          split-append dollar 1 (show_ℕ pbkdf2_iterations) (hex salt ++ dollar ∷ hex digest)
              iterations_Lacks,
          split-append dollar 0 (hex salt) (hex digest) (hex-Lacks salt bytes),
          split_last dollar (hex digest),
          from_hex-hex salt bytes,
          iterations_read,
          derives,
          text_eq_refl method,
        )
        refl

  -- A password is verified against a hash that was made of another one exactly if both have the
  -- same PBKDF2 digest, where the salt and the digests are bytes; so the right password is
  -- verified, and a wrong one is only where it collides.
  pub verify-hash_password :
      (password given encoded : Text) (digest digest' : List ℕ)
      → hash_password pbkdf2 salt password ≡ some encoded
      → pbkdf2 password salt pbkdf2_iterations ≡ some digest
      → pbkdf2 given salt pbkdf2_iterations ≡ some digest'
      → IsBytes digest
      → IsBytes digest'
      → (verify_password pbkdf2 given encoded ≡ true) ↔ (digest' ≡ digest)
  unfolding hash_password
  verify-hash_password password given encoded digest digest' hashed derives derives' b b' =
      let made = some_inj (sym (rw derives at hashed)) in
      let checks =
        ap (verify_password pbkdf2 given) made ∙ verify_computes given digest digest' derives' in
      let meaning = text_eq_iff (hex digest') (hex digest) in
      (
        (λ h. hex_injective digest' digest b' b (meaning.0 (sym checks ∙ h))),
        (λ e. checks ∙ meaning.1 (ap hex e)),
      )

  -- The password that was hashed is verified.
  pub verifies_own :
      (password encoded : Text)
      → hash_password pbkdf2 salt password ≡ some encoded
      → verify_password pbkdf2 password encoded ≡ true
  unfolding hash_password
  verifies_own password encoded hashed =
      elim (Option-cases (pbkdf2 password salt pbkdf2_iterations)) [
        | inl nothing ↦ absurd (none-some (rw nothing at hashed))
        | inr (digest, derives) ↦
            ap (verify_password pbkdf2 password) (sym (some_inj (rw derives at hashed)))
            ∙ verify_computes password digest digest derives
            ∙ text_eq_refl (hex digest)
      ]
