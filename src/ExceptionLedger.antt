-- ===== src/ExceptionLedger.antt =====
-- tools/exception_ledger_check.py: the tables of docs/limitations.md.
pub mod Scope
pub mod Reading
pub mod Rows
pub mod Matrix
pub mod Waived
mod Tests
pub mod Lawful
use xr_browser.Prelude.{
  ℕ, zero, suc, Text, String, Bool, true, false, not, ◌&&◌, Option, none, some, List, [], ◌∷◌, ◌++◌,
  map, reverse, codes, has_text, is_empty, split, split_lines, starts_with, strip, text_eq, Dict,
  store, ◌==◌, if◌then◌else◌,
}

abbrev pub shield_heading : Text
shield_heading = codes "## shield exception ledger rows"

abbrev pub cosmetic_heading : Text
cosmetic_heading = codes "## cosmetic exception ledger rows"

abbrev pub ledger_heading : Text
ledger_heading = codes "## §1.13 exception ledger rows"

-- s.lstrip("|")
lstrip_bars : Text → Text
lstrip_bars [] = []
lstrip_bars (c ∷ s) = if c == b'|' then lstrip_bars s else c ∷ s

-- [c.strip() for c in line.strip().strip("|").split("|")]
unfoldable pub cells_of : Text → List Text
unfolding lstrip_bars
cells_of line = map strip (split b'|' (reverse (lstrip_bars (reverse (lstrip_bars (strip line))))))

-- A row of the shield or of the cosmetic ledger.
pub record Row : Type 0 where
  pub scope_id : Text
  pub scope : Text
  pub reason : Text
  pub expiry : Text
  pub owner : Text

abbrev first_of : List Text → Text
first_of [] = []
first_of (c ∷ cs) = c

-- The row of the cells, if there are four and the first is filled.
unfoldable pub row_of : List Text → List Row
row_of (id ∷ scope ∷ reason ∷ expiry ∷ rest) =
    if is_empty id
    then []
    else record {
      scope_id = id;
      scope = scope;
      reason = reason;
      expiry = expiry;
      owner = first_of rest;
    }
      ∷ []
row_of _ = []

-- Whether a line of the section is read as a row; `header` is a word of the table's head.
unfoldable pub is_row : String → Text → Bool
is_row header line =
    starts_with (codes "|") (strip line)
    && not (has_text (codes "---") line)
    && not (has_text (codes header) line)

-- The loop of _scope_ledger_rows after the heading; a line that starts with "#" ends it.
unfoldable pub section_rows : Text → List Text → List Row
section_rows heading [] = []
section_rows heading (line ∷ lines) =
    let rest = section_rows heading lines in
    if text_eq (strip line) heading
    then rest
    else if starts_with (codes "#") (strip line)
    then []
    else if is_row "scope_id" line
    then row_of (cells_of line) ++ rest
    else rest

-- _scope_ledger_rows, on the lines: nothing where the section is missing
unfoldable pub section : Text → List Text → Option (List Row)
section heading [] = none
section heading (line ∷ lines) =
    let rest = section heading lines in
    if text_eq (strip line) heading then some (section_rows heading lines) else rest

unfoldable pub scope_ledger_rows : Text → Text → Option (List Row)
scope_ledger_rows text heading = section heading (split_lines text)

-- A row of the §1.13 ledger, under its mechanism.
pub record Waiver : Type 0 where
  pub owner : Text
  pub expiry : Text
  pub note : Text

unfoldable pub add_waiver : List Text → Dict Waiver → Dict Waiver
add_waiver (mech ∷ owner ∷ expiry ∷ rest) rows =
    if is_empty mech
    then rows
    else store mech (record { owner = owner; expiry = expiry; note = first_of rest }) rows
add_waiver _ rows = rows

-- The loop of ledger_rows; `inside` the table or before it.
unfoldable pub waiver_loop : Bool → List Text → Dict Waiver → Dict Waiver
waiver_loop inside [] rows = rows
waiver_loop inside (line ∷ lines) rows = elim (text_eq (strip line) ledger_heading) [
  | true ↦ waiver_loop true lines rows
  | false ↦
      elim (inside
        && starts_with (codes "#") (strip line)
        && not (starts_with ledger_heading (strip line))) [
          | true ↦ rows
          | false ↦
              waiver_loop inside lines (
                if inside && is_row "mechanism" line then add_waiver (cells_of line) rows else rows)
        ]
]

unfoldable pub ledger_rows : Text → Dict Waiver
ledger_rows text = waiver_loop false (split_lines text) []
