-- ===== src/Packages.antt =====
-- The packages that an event can be on (app/services/packages.py): the built-in definitions, and
-- `get_package`, which prefers the row of the database.
pub mod Lookup
pub mod Edit
use markmonica.Base.{
  ℕ, ◌*◌, ◌^◌, Bool, true, false, ◌||◌, Option, none, some, List, [], ◌∷◌, if◌then◌else◌,
}
use markmonica.Base.Tables.{find}
use markmonica.Base.Texts.{Text, text, text_eq, is_empty}
use markmonica.Model.{Db, PackageConfig}

abbrev pub gib : ℕ
gib = 1024 ^ 3

abbrev pub mib : ℕ
mib = 1024 ^ 2

pub record PackageDefinition : Type 0 where
  pub code : Text
  pub name : Text
  pub max_events : Option ℕ
  pub max_media_per_event : Option ℕ
  pub max_storage_bytes_per_event : Option ℕ
  pub max_video_bytes : Option ℕ
  pub guest_gallery : Bool
  pub archive_downloads : Bool
  pub custom_event_design : Bool
  pub tier_rank : ℕ
  pub payment_required : Bool

-- The entries of `PACKAGES`.
abbrev pub demo_package : PackageDefinition
demo_package = record {
  code = text "demo";
  name = text "Demo";
  max_events = none;
  max_media_per_event = some 20;
  max_storage_bytes_per_event = some (250 * mib);
  max_video_bytes = some (50 * mib);
  guest_gallery = false;
  archive_downloads = false;
  custom_event_design = false;
  tier_rank = 0;
  payment_required = false;
}

abbrev pub starter_package : PackageDefinition
starter_package = record {
  code = text "starter";
  name = text "Starter";
  max_events = none;
  max_media_per_event = some 100;
  max_storage_bytes_per_event = some (1 * gib);
  max_video_bytes = some (500 * mib);
  guest_gallery = false;
  archive_downloads = true;
  custom_event_design = true;
  tier_rank = 10;
  payment_required = true;
}

abbrev pub celebration_package : PackageDefinition
celebration_package = record {
  code = text "celebration";
  name = text "Celebration";
  max_events = none;
  max_media_per_event = some 500;
  max_storage_bytes_per_event = some (5 * gib);
  max_video_bytes = some (500 * mib);
  guest_gallery = true;
  archive_downloads = true;
  custom_event_design = true;
  tier_rank = 20;
  payment_required = true;
}

abbrev pub premium_package : PackageDefinition
premium_package = record {
  code = text "premium";
  name = text "Premium";
  max_events = none;
  max_media_per_event = none;
  max_storage_bytes_per_event = none;
  max_video_bytes = some (500 * mib);
  guest_gallery = true;
  archive_downloads = true;
  custom_event_design = true;
  tier_rank = 30;
  payment_required = true;
}

abbrev pub packages : List PackageDefinition
packages = demo_package ∷ starter_package ∷ celebration_package ∷ premium_package ∷ []

abbrev pub has_code : Text → PackageDefinition → Bool
has_code code p = text_eq p.code code

abbrev pub legacy_package_code : Text
legacy_package_code = text "premium"

abbrev pub built_in : Text → Option PackageDefinition
built_in code = find (has_code code) packages

-- `_fallback_code`; the code is a text that may be empty, never None, in every call of the program.
unfoldable pub fallback_code : Text → Text
fallback_code code =
    if is_empty code || text_eq code (text "free")
    then legacy_package_code
    else elim (built_in code) [ none ↦ legacy_package_code | some p ↦ code ]

abbrev pub config_has_code : Text → PackageConfig → Bool
config_has_code code c = text_eq c.code code

-- `db.get(PackageConfig, code)`
unfoldable pub package_config : Db → Text → Option PackageConfig
package_config db code = find (config_has_code code) db.package_configs

abbrev pub from_config : PackageConfig → PackageDefinition
from_config c = record {
  code = c.code;
  name = c.name;
  max_events = none;
  max_media_per_event = c.max_media_per_event;
  max_storage_bytes_per_event = c.max_storage_bytes_per_event;
  max_video_bytes = c.max_video_bytes;
  guest_gallery = c.guest_gallery;
  archive_downloads = c.archive_downloads;
  custom_event_design = c.custom_event_design;
  tier_rank = c.tier_rank;
  payment_required = c.payment_required;
}

-- `PACKAGES[resolved]`. A resolved code is always a key of the dictionary (`Packages.Lookup`).
abbrev pub definition_or_premium : Option PackageDefinition → PackageDefinition
definition_or_premium none = premium_package
definition_or_premium (some p) = p

unfoldable pub get_package : Db → Text → PackageDefinition
unfolding fallback_code package_config
get_package db code =
    let resolved = fallback_code code in
    elim (package_config db resolved) [
      | some config ↦ from_config config
      | none ↦ definition_or_premium (built_in resolved)
    ]
