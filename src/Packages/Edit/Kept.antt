-- ===== src/Packages/Edit/Kept.antt =====
-- What an edit of a package keeps true of the table of packages.
use mathlib.Core.Path.{subst}
use markmonica.Base.{
  clash, some_inj, ℕ, ◌+◌, ◌≤◌, Bool, true, false, not, ◌&&◌, ◌≡◌, inl, inr, refl, sym, ap, ◌∙◌,
  Option, some, List, [], ◌∷◌, arith, Bool-cases, bit, ◌==◌,
}
use markmonica.Base.Int.{is_negative, pos_part}
use markmonica.Base.Tables.{
  find, find_passes, put, any, count, count-put, count-put-false, any-false, find-put,
  find-put_other,
}
use markmonica.Base.Membership.{In, find_unique}
use markmonica.Base.Updates.{any-In, All-from-In, All-count_zero}
use markmonica.Base.Texts.{Text, text_eq, text_eq_iff, text_eq_refl, strip, is_empty}
use markmonica.Model.{Db, Event, PackageConfig}
use markmonica.Http.{ok, or_raise, raise_if, Request, Response}
use markmonica.Http.Post.{ok_inj, bind_ok, or_raise_ok, raise_if_ok, returned_db}
use markmonica.Accounts.{Settings, require_admin}
use markmonica.Payments.Amount.{Decimal}
use markmonica.Packages.{config_has_code, package_config}
use markmonica.Packages.Edit.{
  PackageForm, is_on, has_rank, takes_rank, assigned_to, price_of, edited_package, save_package,
  Values, form_values, check_package, update_package,
}

-- A package that needs no payment costs nothing.
abbrev pub overpriced : PackageConfig → Bool
overpriced p = not p.payment_required && not (p.price_cents == 0)

-- The table of packages is in order: codes and ranks are unique, no event has a package that is
-- switched off, and a package without payment costs nothing.
pub record InOrder (db : Db) : Type 0 where
  pub codes : (code : Text) → count (config_has_code code) db.package_configs ≤ 1
  pub ranks : (rank : ℕ) → count (has_rank rank) db.package_configs ≤ 1
  pub in_use :
      (e : Event) (p : PackageConfig)
      → In e db.events
      → package_config db e.package_code ≡ some p
      → p.is_active ≡ true
  pub priced : count overpriced db.package_configs ≡ 0

count_split :
    (p q : PackageConfig → Bool) (xs : List PackageConfig)
    → count p xs ≡ count (λ y. p y && not (q y)) xs + count (λ y. p y && q y) xs
unfolding count
count_split p q [] = refl
count_split p q (x ∷ xs) = ground (arith, count_split p q xs)

still_on : {on taken : Bool} → (on ≡ false → taken ≡ false) → taken ≡ true → on ≡ true
still_on {on} f h = elim (Bool-cases on) [ inl hit ↦ hit | inr miss ↦ absurd (clash h (f miss)) ]

code_apart : (a b c : Text) → text_eq a b ≡ true → text_eq b c ≡ false → text_eq a c ≡ false
code_apart a b c h k = ap (λ t. text_eq t c) ((text_eq_iff a b).0 h) ∙ k

-- Where one row alone has a key and fails a test, no row has both.
count_apart :
    (p q : PackageConfig → Bool) (xs : List PackageConfig) {x : PackageConfig}
    → find q xs ≡ some x
    → count q xs ≤ 1
    → p x ≡ false
    → count (λ y. p y && q y) xs ≡ 0
count_apart p q xs {x} e u h =
    All-count_zero (λ y. p y && q y) xs
      (All-from-In (λ y. (p y && q y) ≡ false) xs
        λ y i. elim (Bool-cases (q y)) [
          | inr miss ↦ ground arith
          | inl hit ↦
              let same : y ≡ x = some_inj (sym (find_unique q xs i hit u) ∙ e) in
              let fails : p y ≡ false = ap p same ∙ h in ground arith
        ])

-- What the form's checks have seen.
record Checked (db : Db) (p p' : PackageConfig) : Type 0 where
  same_code : p'.code ≡ p.code
  free_rank : any (takes_rank p'.tier_rank p.code) db.package_configs ≡ false
  kept_on : p'.is_active ≡ false → any (assigned_to p.code) db.events ≡ false
  fair : overpriced p' ≡ false

price_fair :
    (required : Bool) (price : ℕ) → (not required && not (price_of required price == 0)) ≡ false
price_fair true price = refl
price_fair false price = refl

module _ (db : Db) (p p' : PackageConfig) (order : InOrder db) (c : Checked db p p')
    (found : find (config_has_code p.code) db.package_configs ≡ some p) where
  abbrev rows : List PackageConfig
  rows = db.package_configs

  abbrev rows' : List PackageConfig
  rows' = put (config_has_code p.code) p' rows

  codes_kept : (code : Text) → count (config_has_code code) rows' ≤ 1
  codes_kept code = omega (
    arith,
    order.codes code,
    count-put (config_has_code code) (config_has_code p.code) p' rows {x = p} found,
    ap (λ t. bit (text_eq t code)) c.same_code,
  )

  ranks_kept : (rank : ℕ) → count (has_rank rank) rows' ≤ 1
  ranks_kept rank =
      let moved = count-put (has_rank rank) (config_has_code p.code) p' rows {x = p} found in
      elim (Bool-cases (has_rank rank p')) [
        | inr other ↦ omega (arith, order.ranks rank, moved, ap bit other)
        | inl new ↦ elim (Bool-cases (has_rank rank p)) [
          | inl old ↦ omega (arith, order.ranks rank, moved, ap bit new, ap bit old)
          | inr not_old ↦
              let its : p'.tier_rank ≡ rank = ground arith in
              let free = subst (λ k. any (takes_rank k p.code) rows ≡ false) its c.free_rank in
              omega (
                arith,
                moved,
                ap bit new,
                count_split (has_rank rank) (config_has_code p.code) rows,
                any-false (takes_rank rank p.code) rows free,
                count_apart (has_rank rank) (config_has_code p.code) rows {x = p} found
                    (order.codes p.code) not_old,
              )
        ]
      ]

  priced_kept : count overpriced rows' ≡ 0
  priced_kept =
      omega
        (arith, order.priced, count-put-false overpriced (config_has_code p.code) p' rows c.fair)

  in_use_kept :
      (e : Event) (x : PackageConfig)
      → In e db.events
      → find (config_has_code e.package_code) rows' ≡ some x
      → x.is_active ≡ true
  unfolding package_config
  in_use_kept e x there stored = elim (Bool-cases (text_eq p.code e.package_code)) [
    | inl own ↦
        let code : p.code ≡ e.package_code = (text_eq_iff p.code e.package_code).0 own in
        let passes = ap (λ t. text_eq t p.code) c.same_code ∙ text_eq_refl p.code in
        let new = find-put (config_has_code p.code) p' rows {x = p} found passes in
        let one : p' ≡ x =
          some_inj (sym new ∙ ap (λ t. find (config_has_code t) rows') code ∙ stored) in
        let assigned = ap (λ t. text_eq t p.code) (sym code) ∙ text_eq_refl p.code in
        ap (λ y. y.is_active) (sym one)
        ∙ still_on c.kept_on (any-In (assigned_to p.code) db.events there assigned)
    | inr other ↦
        let alone =
          find-put_other (config_has_code e.package_code) (config_has_code p.code) p' rows
            (λ z h. code_apart z.code p.code e.package_code h other)
            (ap (λ t. text_eq t e.package_code) c.same_code ∙ other) in
        order.in_use e x there (sym alone ∙ stored)
  ]

  order_kept : InOrder (record db { package_configs = rows' })
  unfolding package_config
  order_kept = record {
    codes = codes_kept;
    ranks = ranks_kept;
    in_use = in_use_kept;
    priced = priced_kept;
  }

guard_of : {on taken : Bool} → (not on && taken) ≡ false → on ≡ false → taken ≡ false
guard_of h k = ground arith

checks :
    (db : Db) (f : PackageForm) (v : Values) (p : PackageConfig) (at : ℕ)
    → any (takes_rank (pos_part f.tier_rank) p.code) db.package_configs ≡ false
    → (not (is_on f.is_active) && any (assigned_to p.code) db.events) ≡ false
    → Checked db p (record (edited_package f v p) { updated_at = at })
checks db f v p at free kept = record {
  same_code = refl;
  free_rank = free;
  kept_on = guard_of kept;
  fair = price_fair (is_on f.payment_required) v.price;
}

module _ {Number : Type 0} (read : Text → Option Number) (negative : Number → Bool)
    (scaled : Number → ℕ → Option ℕ) (decimal : Text → Option Decimal)
    (touched : PackageConfig → PackageConfig → ℕ) where
  check_package_ok :
      (db : Db) (f : PackageForm) (p p' : PackageConfig)
      → check_package read negative scaled decimal touched db f p ≡ ok p'
      → Checked db p p'
  unfolding check_package
  check_package_ok db f p p' h =
      let rank = pos_part f.tier_rank in
      let (_, _, h₁) = bind_ok (raise_if (is_empty (strip f.name)) 400) _ h in
      let (_, _, h₂) = bind_ok (raise_if (is_negative f.tier_rank) 400) _ h₁ in
      let (_, free, h₃) =
        bind_ok (raise_if (any (takes_rank rank p.code) db.package_configs) 400) _ h₂ in
      let (v, _, h₄) = bind_ok (form_values read negative scaled decimal f) _ h₃ in
      let (_, kept_on, h₅) =
        bind_ok (raise_if (not (is_on f.is_active) && any (assigned_to p.code) db.events) 400) _
          h₄ in
      let edited = edited_package f v p in
      subst (Checked db p) {x = record edited { updated_at = touched p edited }} (ok_inj h₅) (
        checks db f v p (touched p edited)
          (raise_if_ok (any (takes_rank rank p.code) db.package_configs) 400 free)
          (raise_if_ok (not (is_on f.is_active) && any (assigned_to p.code) db.events) 400 kept_on))

  -- An edit of a package that succeeds leaves a table that was in order in order: codes and ranks
  -- are unique, no event has a package that is switched off, and a package that needs no payment
  -- costs nothing.
  pub update_package-InOrder :
      (s : Settings) (req : Request) (db db' : Db) (code : Text) (f : PackageForm) (r : Response)
      → InOrder db
      → update_package read negative scaled decimal touched s req db code f ≡ ok (r, db')
      → InOrder db'
  unfolding update_package package_config
  update_package-InOrder s req db db' code f r order h =
      let (_, _, h₁) = bind_ok (require_admin s req db) _ h in
      let (p, stored, h₂) = bind_ok (or_raise (package_config db code) 404) _ h₁ in
      let (p', checked, h₃) =
        bind_ok (check_package read negative scaled decimal touched db f p) _ h₂ in
      let c = check_package_ok db f p p' checked in
      let row = or_raise_ok (package_config db code) 404 stored in
      let key =
        (text_eq_iff p.code code).0 (find_passes (config_has_code code) db.package_configs row) in
      let found = subst (λ k. find (config_has_code k) db.package_configs ≡ some p) (sym key) row in
      let result : save_package p' db ≡ db' = returned_db _ r _ db' h₃ in
      subst InOrder
        (ap (λ k. record db { package_configs = put (config_has_code k) p' db.package_configs })
            (sym c.same_code)
          ∙ result)
        (order_kept db p p' order c found)
