-- ===== src/ExceptionLedger/Rows.antt =====
-- `check_shield` and `check_cosmetic` of exception_ledger_check.py. A failure is held with the scope_id
-- that its message starts with; the lines printed for the rows that pass are left out.
use xr_browser.Prelude.{
  Whole, plus, minus, flag, ℕ, zero, suc, Text, not, Option, none, some, List, [], ◌∷◌, ◌++◌, map,
  codes, drop, leb, is_empty, length, starts_with, text_eq, text_mem, if◌then◌else◌,
}
use xr_browser.ExceptionLedger.{Row, shield_heading, cosmetic_heading, scope_ledger_rows}
use xr_browser.ExceptionLedger.Scope.{BadScope, parse_scope_cell}

-- What Python reads in a cell: an integer, and a date by its ordinal.
pub record Reader : Type 0 where
  pub int_of : Text → Option Whole
  pub date_of : Text → Option ℕ

pub data Failure : Type 0 where
  no_file no_section : Failure
  bad_scope : BadScope → Failure
  no_reason no_owner not_an_integer below_floor expired : Failure
  toggle_scope toggle_reason no_shield_row : Failure

abbrev pub under : Text → Failure → Text × Failure
under id f = (id, f)

abbrev pub scope_failures : Option BadScope → List Failure
scope_failures none = []
scope_failures (some b) = bad_scope b ∷ []

-- The tests of an expiry that has been read.
unfoldable pub expiry_failures : ℕ → Option Whole → List Failure
expiry_failures as_of none = not_an_integer ∷ []
expiry_failures as_of (some (minus zero)) = []
expiry_failures as_of (some (minus (suc n))) = below_floor ∷ []
expiry_failures as_of (some (plus n)) = flag (leb n as_of) expired

abbrev pub toggle_prefix : Text
toggle_prefix = codes "site-toggle:"

unfoldable pub toggle_failures : Row → List Failure
toggle_failures row =
    if starts_with toggle_prefix row.scope_id
    then flag (not (text_eq row.scope (codes "site=" ++ drop (length toggle_prefix) row.scope_id)))
        toggle_scope
      ++ flag (not (text_eq row.reason (codes "user-site-toggle"))) toggle_reason
    else []

abbrev pub ids : Option (List Row) → List Text
ids none = []
ids (some rows) = map (λ (row : Row). row.scope_id) rows

module _ (r : Reader) (as_of : ℕ) where
  -- The tests that the two ledgers share.
  unfoldable pub common_failures : Row → List Failure
  common_failures row =
      scope_failures (parse_scope_cell row.scope)
      ++ (flag (is_empty row.reason) no_reason
          ++ (flag (is_empty row.owner) no_owner ++ expiry_failures as_of (r.int_of row.expiry)))

  unfoldable pub shield_failures : List Row → List (Text × Failure)
  shield_failures [] = []
  shield_failures (row ∷ rows) =
      map (under row.scope_id) (common_failures row ++ toggle_failures row) ++ shield_failures rows

  abbrev pub shield_of : Option (List Row) → List (Text × Failure)
  shield_of none = ([], no_section) ∷ []
  shield_of (some rows) = shield_failures rows

  -- check_shield, on the text of docs/limitations.md where there is one
  unfoldable pub check_shield : Option Text → List (Text × Failure)
  check_shield none = ([], no_file) ∷ []
  check_shield (some text) = shield_of (scope_ledger_rows text shield_heading)

  -- `shield_ids` are the ids of the shield ledger.
  unfoldable pub cosmetic_failures : List Text → List Row → List (Text × Failure)
  cosmetic_failures shield_ids [] = []
  cosmetic_failures shield_ids (row ∷ rows) =
      map (under row.scope_id)
        (common_failures row ++ flag (not (text_mem row.scope_id shield_ids)) no_shield_row)
      ++ cosmetic_failures shield_ids rows

  abbrev pub cosmetic_of : List Text → Option (List Row) → List (Text × Failure)
  cosmetic_of shield_ids none = ([], no_section) ∷ []
  cosmetic_of shield_ids (some rows) = cosmetic_failures shield_ids rows

  unfoldable pub check_cosmetic : Option Text → List (Text × Failure)
  check_cosmetic none = ([], no_file) ∷ []
  check_cosmetic (some text) =
      cosmetic_of (ids (scope_ledger_rows text shield_heading))
        (scope_ledger_rows text cosmetic_heading)
