-- ===== src/ExceptionLedger/Lawful.antt =====
-- The ledgers that exception_ledger_check.py passes.
use mathlib.Core.Path.{subst}
use xr_browser.Prelude.{
  split_lines, Whole, plus, minus, flag, flag-eq-nil_iff, ℕ, zero, suc, ◌<◌, ◌≡◌, ◌↔◌, refl, Text,
  true, false, not, Option, none, some, List, [], ◌∷◌, ◌++◌, map, All, append-eq-nil, Bool-cases,
  inl, inr, codes, drop, is_empty, length, starts_with, text_eq, text_eq_iff, text_mem, arith,
}
use xr_browser.ExceptionLedger.{Row, shield_heading, cosmetic_heading, scope_ledger_rows}
use xr_browser.ExceptionLedger.Reading.{HasSection, scope_ledger_rows_iff}
use xr_browser.ExceptionLedger.Scope.{
  BadScope, parse_scope_cell, IsScope, parse_scope_cell-eq-none_iff,
}
use xr_browser.ExceptionLedger.Rows.{
  Reader, Failure, scope_failures, expiry_failures, toggle_prefix, toggle_failures, common_failures,
  shield_failures, under, check_shield, ids, shield_of, cosmetic_of, cosmetic_failures,
  check_cosmetic, toggle_scope, toggle_reason, no_reason, no_owner, no_shield_row,
}

-- An expiry of -1, or one that is still to come.
pub data IsCurrent (as_of : ℕ) : Option Whole → Type 0 where
  never : IsCurrent as_of (some (minus 0))
  until : {n : ℕ} → as_of < n → IsCurrent as_of (some (plus n))

pub record IsLawful (r : Reader) (as_of : ℕ) (row : Row) : Type 0 where
  pub scope : IsScope row.scope
  pub reason : is_empty row.reason ≡ false
  pub owner : is_empty row.owner ≡ false
  pub expiry : IsCurrent as_of (r.int_of row.expiry)

-- A row of a site toggle has the toggle's scope and reason.
abbrev pub ObeysToggle : Row → Type 0
ObeysToggle row =
    starts_with toggle_prefix row.scope_id ≡ true
    → (row.scope ≡ codes "site=" ++ drop (length toggle_prefix) row.scope_id)
      × (row.reason ≡ codes "user-site-toggle")

expiry_failures-eq-nil_iff :
    (as_of : ℕ) (o : Option Whole) → (expiry_failures as_of o ≡ []) ↔ IsCurrent as_of o
unfolding expiry_failures
expiry_failures-eq-nil_iff as_of none = (λ e. cc, λ h. elim h [ ])
expiry_failures-eq-nil_iff as_of (some (minus zero)) = (λ e. never, λ h. refl)
expiry_failures-eq-nil_iff as_of (some (minus (suc n))) = (λ e. cc, λ h. elim h [ ])
expiry_failures-eq-nil_iff as_of (some (plus n)) =
    (λ e. until (ground arith), λ h. elim h [ until l ↦ ground arith ])

scope_failures-eq-nil_iff : (o : Option BadScope) → (scope_failures o ≡ []) ↔ (o ≡ none)
scope_failures-eq-nil_iff none = (λ e. refl, λ e. refl)
scope_failures-eq-nil_iff (some b) = (λ e. cc, λ e. cc)

module _ (r : Reader) (as_of : ℕ) where
  common_failures-eq-nil_iff :
      (row : Row) → (common_failures r as_of row ≡ []) ↔ IsLawful r as_of row
  unfolding common_failures
  common_failures-eq-nil_iff row = (
    λ e.
        let (scoped, e1) = append-eq-nil (scope_failures (parse_scope_cell row.scope)) _ e in
        let (reasoned, e2) = append-eq-nil (flag (is_empty row.reason) no_reason) _ e1 in
        let (owned, e3) = append-eq-nil (flag (is_empty row.owner) no_owner) _ e2 in
        record {
          scope =
              (parse_scope_cell-eq-none_iff row.scope).0
                ((scope_failures-eq-nil_iff (parse_scope_cell row.scope)).0 scoped);
          reason = (flag-eq-nil_iff (is_empty row.reason) no_reason).0 reasoned;
          owner = (flag-eq-nil_iff (is_empty row.owner) no_owner).0 owned;
          expiry = (expiry_failures-eq-nil_iff as_of (r.int_of row.expiry)).0 e3;
        },
    λ h.
        rw ((parse_scope_cell-eq-none_iff row.scope).1 h.scope, h.reason, h.owner)
          ((expiry_failures-eq-nil_iff as_of (r.int_of row.expiry)).1 h.expiry),
  )

-- A test that two texts are one.
unlike-eq-nil_iff : (s t : Text) (f : Failure) → (flag (not (text_eq s t)) f ≡ []) ↔ (s ≡ t)
unlike-eq-nil_iff s t f = (
  λ e. let same = (flag-eq-nil_iff (not (text_eq s t)) f).0 e in (text_eq_iff s t).0 (ground arith),
  λ e. rw ((text_eq_iff s t).1 e) refl,
)

toggle_failures-eq-nil_iff : (row : Row) → (toggle_failures row ≡ []) ↔ ObeysToggle row
unfolding toggle_failures
toggle_failures-eq-nil_iff row =
    let want = codes "site=" ++ drop (length toggle_prefix) row.scope_id in
    let scope_law = unlike-eq-nil_iff row.scope want toggle_scope in
    let reason_law = unlike-eq-nil_iff row.reason (codes "user-site-toggle") toggle_reason in
    (
      λ e t.
          let (scoped, reasoned) =
            append-eq-nil (flag (not (text_eq row.scope want)) toggle_scope) _ (rw t at e) in
          (scope_law.0 scoped, reason_law.0 reasoned),
      λ h. elim (Bool-cases (starts_with toggle_prefix row.scope_id)) [
        | inr other ↦ rw other refl
        | inl toggle ↦ rw (toggle, scope_law.1 (h toggle).0, reason_law.1 (h toggle).1) refl
      ],
    )

map-eq-nil : (id : Text) (fs : List Failure) → map (under id) fs ≡ [] → fs ≡ []
map-eq-nil id [] e = refl
map-eq-nil id (f ∷ fs) e = cc

module _ (r : Reader) (as_of : ℕ) where
  abbrev pub ObeysShield : Row → Type 0
  ObeysShield row = IsLawful r as_of row × ObeysToggle row

  shield_failures-eq-nil_iff :
      (rows : List Row) → (shield_failures r as_of rows ≡ []) ↔ All ObeysShield rows
  unfolding shield_failures
  shield_failures-eq-nil_iff [] = (λ e. tt, λ h. refl)
  shield_failures-eq-nil_iff (row ∷ rows) = (
    λ e.
        let (here, later) =
          append-eq-nil
            (map (under row.scope_id) (common_failures r as_of row ++ toggle_failures row)) _ e in
        let (common, toggle) =
          append-eq-nil (common_failures r as_of row) (toggle_failures row)
            (map-eq-nil row.scope_id _ here) in
        (
          (
            (common_failures-eq-nil_iff r as_of row).0 common,
            (toggle_failures-eq-nil_iff row).0 toggle,
          ),
          (shield_failures-eq-nil_iff rows).0 later,
        ),
    λ h.
        rw
          (
            (common_failures-eq-nil_iff r as_of row).1 h.0.0,
            (toggle_failures-eq-nil_iff row).1 h.0.1,
          )
          ((shield_failures-eq-nil_iff rows).1 h.1),
  )

  -- A lawful row of the cosmetic ledger, with a row of the shield ledger under the same id.
  abbrev pub ObeysCosmetic : List Text → Row → Type 0
  ObeysCosmetic shield_ids row = IsLawful r as_of row × (text_mem row.scope_id shield_ids ≡ true)

  cosmetic_failures-eq-nil_iff :
      (shield_ids : List Text) (rows : List Row)
      → (cosmetic_failures r as_of shield_ids rows ≡ []) ↔ All (ObeysCosmetic shield_ids) rows
  unfolding cosmetic_failures
  cosmetic_failures-eq-nil_iff shield_ids [] = (λ e. tt, λ h. refl)
  cosmetic_failures-eq-nil_iff shield_ids (row ∷ rows) =
      let known = flag-eq-nil_iff (not (text_mem row.scope_id shield_ids)) no_shield_row in
      (
        λ e.
            let (here, later) =
              append-eq-nil
                (map (under row.scope_id) (
                  common_failures r as_of row
                  ++ flag (not (text_mem row.scope_id shield_ids)) no_shield_row))
                _ e in
            let (common, listed) =
              append-eq-nil (common_failures r as_of row) _ (map-eq-nil row.scope_id _ here) in
            let found = known.0 listed in
            (
              ((common_failures-eq-nil_iff r as_of row).0 common, ground arith),
              (cosmetic_failures-eq-nil_iff shield_ids rows).0 later,
            ),
        λ h.
            rw ((common_failures-eq-nil_iff r as_of row).1 h.0.0, h.0.1)
              ((cosmetic_failures-eq-nil_iff shield_ids rows).1 h.1),
      )

-- The two ledgers of a text, and the laws of their rows.
pub record AreLawful (r : Reader) (as_of : ℕ) (text : Text) : Type 0 where
  pub shield : List Row
  pub cosmetic : List Row
  pub shield_read : HasSection shield_heading (split_lines text) shield
  pub cosmetic_read : HasSection cosmetic_heading (split_lines text) cosmetic
  pub shield_lawful : All (ObeysShield r as_of) shield
  pub cosmetic_lawful : All (ObeysCosmetic r as_of (ids (some shield))) cosmetic

module _ (r : Reader) (as_of : ℕ) where
  shield_of-nil :
      (o : Option (List Row))
      → shield_of r as_of o ≡ []
      → (rows : List Row) × (o ≡ some rows) × All (ObeysShield r as_of) rows
  shield_of-nil none e = cc
  shield_of-nil (some rows) e = (rows, refl, (shield_failures-eq-nil_iff r as_of rows).0 e)

  cosmetic_of-nil :
      (shield_ids : List Text) (o : Option (List Row))
      → cosmetic_of r as_of shield_ids o ≡ []
      → (rows : List Row) × (o ≡ some rows) × All (ObeysCosmetic r as_of shield_ids) rows
  cosmetic_of-nil shield_ids none e = cc
  cosmetic_of-nil shield_ids (some rows) e =
      (rows, refl, (cosmetic_failures-eq-nil_iff r as_of shield_ids rows).0 e)

  -- The shield and the cosmetic ledger of a text pass exactly when both sections are there, every row
  -- that is read of them has a scope of known, distinct dimensions, a reason, an owner and an expiry
  -- that is -1 or later than the date of the check, a shield row of a site toggle has the toggle's
  -- scope and reason, and the id of a cosmetic row, and it alone, is that of a shield row. A line is
  -- read as a row from the section's heading to the next line that starts with "#", if it starts with
  -- a bar, has neither "---" nor "scope_id" in it, and has four cells at least, the first one filled.
  pub check_cosmetic-check_shield-eq-nil_iff :
      (text : Text)
      → ((check_shield r as_of (some text) ≡ []) × (check_cosmetic r as_of (some text) ≡ []))
        ↔ AreLawful r as_of text
  unfolding check_shield check_cosmetic
  check_cosmetic-check_shield-eq-nil_iff text = (
    λ e.
        let (shield, sr, sl) = shield_of-nil (scope_ledger_rows text shield_heading) e.0 in
        let (cosmetic, cr, cl) = cosmetic_of-nil _ (scope_ledger_rows text cosmetic_heading) e.1 in
        record {
          shield = shield;
          cosmetic = cosmetic;
          shield_read = (scope_ledger_rows_iff text shield_heading shield).0 sr;
          cosmetic_read = (scope_ledger_rows_iff text cosmetic_heading cosmetic).0 cr;
          shield_lawful = sl;
          cosmetic_lawful = subst (λ o. All (ObeysCosmetic r as_of (ids o)) cosmetic) sr cl;
        },
    λ h.
        let sr = (scope_ledger_rows_iff text shield_heading h.shield).1 h.shield_read in
        let cr = (scope_ledger_rows_iff text cosmetic_heading h.cosmetic).1 h.cosmetic_read in
        (
          rw sr ((shield_failures-eq-nil_iff r as_of h.shield).1 h.shield_lawful),
          rw (cr, sr)
              ((cosmetic_failures-eq-nil_iff r as_of (ids (some h.shield)) h.cosmetic).1
                h.cosmetic_lawful),
        ),
  )
