-- ===== src/Accounts/Hashing.antt =====
-- Password hashes (`hash_password` and `verify_password`, app/security.py). PBKDF2 is a parameter,
-- which has no value where Python raises; the salt is an argument.
pub mod Verified
use markmonica.Base.{
  ℕ, zero, suc, ◌+◌, ◌-◌, ◌*◌, ◌/◌, ◌%◌, Bool, true, false, ◌&&◌, ◌||◌, Option, none, some, List,
  [], ◌∷◌, ◌++◌, leb, ◌==◌, if◌then◌else◌,
}
use markmonica.Base.Numerals.{show_ℕ}
use markmonica.Base.Texts.{Text, text, text_eq, strip}

abbrev pub pbkdf2_iterations : ℕ
pbkdf2_iterations = 600000

-- `bytes.hex`
abbrev pub hex_digit : ℕ → ℕ
hex_digit n = if leb n 9 then 48 + n else 87 + n

unfoldable pub hex : List ℕ → Text
hex [] = []
hex (b ∷ bs) = hex_digit (b / 16) ∷ hex_digit (b % 16) ∷ hex bs

-- `bytes.fromhex`, which passes over the white space of ASCII between two bytes.
abbrev pub read_hex_digit : ℕ → Option ℕ
read_hex_digit c =
    if leb 48 c && leb c 57
    then some (c - 48)
    else if leb 97 c && leb c 102
    then some (c - 87)
    else if leb 65 c && leb c 70
    then some (c - 55)
    else none

abbrev pub read_byte : Option ℕ → Option ℕ → Option (List ℕ) → Option (List ℕ)
read_byte (some a) (some b) (some bs) = some ((a * 16 + b) ∷ bs)
read_byte _ _ _ = none

abbrev is_ascii_space : ℕ → Bool
is_ascii_space c = (leb 9 c && leb c 13) || c == 32

unfoldable pub from_hex : Text → Option (List ℕ)
from_hex [] = some []
from_hex (c ∷ []) = if is_ascii_space c then some [] else none
from_hex (c ∷ d ∷ t) =
    let next = from_hex (d ∷ t) in
    let rest = from_hex t in
    if is_ascii_space c then next else read_byte (read_hex_digit c) (read_hex_digit d) rest

-- `int` of a text in the digits of ASCII, with its underscores and its plus sign; a negative
-- number, for which PBKDF2 raises, is no number here either.
unfoldable pub read_digits : Bool → ℕ → Text → Option ℕ
read_digits digit_before n [] = if digit_before then some n else none
read_digits digit_before n (c ∷ t) =
    let more = read_digits true (n * 10 + (c - 48)) t in
    let gap = read_digits false n t in
    if leb 48 c && leb c 57 then more else if c == 95 && digit_before then gap else none

abbrev unsigned : Text → Text
unsigned [] = []
unsigned (c ∷ t) = if c == 43 then t else c ∷ t

unfoldable pub read_int : Text → Option ℕ
read_int t = read_digits false 0 (unsigned (strip t))

-- `text.split(chr(c), n)`
abbrev pub add_char : ℕ → List Text → List Text
add_char c [] = (c ∷ []) ∷ []
add_char c (p ∷ ps) = (c ∷ p) ∷ ps

unfoldable pub split : ℕ → ℕ → Text → List Text
split c n [] = [] ∷ []
split c zero (d ∷ t) = (d ∷ t) ∷ []
split c (suc n) (d ∷ t) =
    let after_it = split c n t in
    let same_part = split c (suc n) t in if d == c then [] ∷ after_it else add_char d same_part

abbrev pub dollar : ℕ
dollar = 36

module _ (pbkdf2 : Text → List ℕ → ℕ → Option (List ℕ)) where
  abbrev pub encoded : List ℕ → Option (List ℕ) → Option Text
  encoded salt none = none
  encoded salt (some digest) = some (
      text "pbkdf2_sha256"
      ++ dollar ∷ (show_ℕ pbkdf2_iterations ++ dollar ∷ (hex salt ++ dollar ∷ hex digest)))

  unfoldable pub hash_password : List ℕ → Text → Option Text
  hash_password salt password = encoded salt (pbkdf2 password salt pbkdf2_iterations)

  abbrev pub same_digest : Option (List ℕ) → Text → Bool
  same_digest none digest_hex = false
  same_digest (some digest) digest_hex = text_eq (hex digest) digest_hex

  abbrev pub derived : Text → Option (List ℕ) → Option ℕ → Option (List ℕ)
  derived password (some salt) (some iterations) = pbkdf2 password salt iterations
  derived password _ _ = none

  abbrev pub verify_parts : Text → List Text → Bool
  verify_parts password (algorithm ∷ iterations ∷ salt_hex ∷ digest_hex ∷ []) =
      text_eq algorithm (text "pbkdf2_sha256")
      && same_digest (derived password (from_hex salt_hex) (read_int iterations)) digest_hex
  verify_parts password _ = false

  unfoldable pub verify_password : Text → Text → Bool
  verify_password password encoded = verify_parts password (split dollar 3 encoded)
