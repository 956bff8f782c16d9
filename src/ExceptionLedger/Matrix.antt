-- ===== src/ExceptionLedger/Matrix.antt =====
-- `check` of exception_ledger_check.py: the exceptions of the isolation matrix against the §1.13 ledger.
use xr_browser.Prelude.{
  flag, ℕ, Text, not, Option, none, some, List, [], ◌∷◌, ◌++◌, codes, ltb, is_empty, text_eq,
  text_mem, Dict, lookup, names, if◌then◌else◌,
}
use xr_browser.Json.{text_le}
use xr_browser.ExceptionLedger.{Waiver, ledger_rows}
use xr_browser.ExceptionLedger.Rows.{Reader}

-- A cell of the matrix.
pub record Cell : Type 0 where
  pub mechanism : Text
  pub verdict : Text

pub data MatrixFailure : Type 0 where
  no_limitations no_rows unreadable_matrix : MatrixFailure
  no_ledger_row empty_owner empty_expiry not_a_date past orphan : Text → MatrixFailure

-- Into a sorted list without repetitions.
unfoldable pub insert_mechanism : Text → List Text → List Text
insert_mechanism m [] = m ∷ []
insert_mechanism m (n ∷ ns) =
    if text_eq m n then n ∷ ns else (if text_le m n then m ∷ n ∷ ns else n ∷ insert_mechanism m ns)

-- sorted({c["mechanism"] for c in cells if c["verdict"] == "EXCEPTION"})
unfoldable pub exception_mechs : List Cell → List Text
exception_mechs [] = []
exception_mechs (c ∷ cells) =
    let rest = exception_mechs cells in
    if text_eq c.verdict (codes "EXCEPTION") then insert_mechanism c.mechanism rest else rest

unfoldable pub date_failures : Text → ℕ → Option ℕ → List MatrixFailure
date_failures mech today none = not_a_date mech ∷ []
date_failures mech today (some day) = flag (ltb day today) (past mech)

-- The body of the loop over the exceptions.
unfoldable pub waiver_failures : Reader → ℕ → Text → Option Waiver → List MatrixFailure
waiver_failures r today mech none = no_ledger_row mech ∷ []
waiver_failures r today mech (some row) =
    flag (is_empty row.owner) (empty_owner mech)
    ++ (if is_empty row.expiry
        then empty_expiry mech ∷ []
        else date_failures mech today (r.date_of row.expiry))

unfoldable pub mech_failures : Reader → ℕ → Dict Waiver → List Text → List MatrixFailure
mech_failures r today rows [] = []
mech_failures r today rows (mech ∷ mechs) =
    waiver_failures r today mech (lookup mech rows) ++ mech_failures r today rows mechs

unfoldable pub orphans : List Text → List Text → List MatrixFailure
orphans mechs [] = []
orphans mechs (mech ∷ rows) = flag (not (text_mem mech mechs)) (orphan mech) ++ orphans mechs rows

-- The checks of the rows that were read.
abbrev pub check_rows : Reader → ℕ → Dict Waiver → Option (List Cell) → List MatrixFailure
check_rows r today [] cells = no_rows ∷ []
check_rows r today (row ∷ rows) none = unreadable_matrix ∷ []
check_rows r today (row ∷ rows) (some cells) =
    mech_failures r today (row ∷ rows) (exception_mechs cells)
    ++ orphans (exception_mechs cells) (names (row ∷ rows))

-- check, on the text of docs/limitations.md and the cells of the matrix, where they can be read
unfoldable pub check : Reader → ℕ → Option Text → Option (List Cell) → List MatrixFailure
check r today none cells = no_limitations ∷ []
check r today (some text) cells = check_rows r today (ledger_rows text) cells
