-- ===== src/Packages/Lookup.antt =====
-- The lookup of a package's definition never misses (`get_package`, app/services/packages.py).
use markmonica.Base.{◌≡◌, refl, ◌||◌, some, Bool-cases, Option-cases, inl, inr}
use markmonica.Base.Tables.{find}
use markmonica.Base.Texts.{Text, text, text_eq, is_empty}
use markmonica.Packages.{
  PackageDefinition, built_in, fallback_code, premium_package, legacy_package_code,
}

premium_known : built_in legacy_package_code ≡ some premium_package
unfolding find text_eq
premium_known = refl

-- Every code, known or not, empty or `free`, resolves to a key of `PACKAGES`: the dictionary's
-- lookup in `get_package` finds a definition and cannot raise.
pub fallback_code_known :
    (code : Text) → (p : PackageDefinition) × (built_in (fallback_code code) ≡ some p)
unfolding fallback_code
fallback_code_known code = elim (Bool-cases (is_empty code || text_eq code (text "free"))) [
  | inl old ↦ rw (fallback_code, old) (premium_package, premium_known)
  | inr other ↦ elim (Option-cases (built_in code)) [
    | inl unknown ↦ rw (fallback_code, other, unknown) (premium_package, premium_known)
    | inr (p, known) ↦ rw (fallback_code, other, known) (p, known)
  ]
]
