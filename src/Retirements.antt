-- ===== src/Retirements.antt =====
-- build/upstream/retirements.py: the ledger of retired patches, its append and its lint.
pub mod Kept
pub mod Linked
mod Tests
use xr_browser.Prelude.{
  String, Text, Bool, true, false, not, ◌&&◌, ◌||◌, List, [], ◌∷◌, ◌++◌, map, is_empty, strip,
  text_eq, text_mem, codes, if◌then◌else◌,
}

pub record Row : Type 0 where
  pub id : Text
  pub rev_retired_at : Text
  pub mechanism : Text
  pub evidence : Text
  pub note : Text
  pub retired_at : Text
  pub retired_by : Text

-- MECHANISMS
abbrev pub mechanisms : List String
mechanisms = "upstreamed" ∷ "obsoleted" ∷ "dropped-with-review" ∷ []

unfoldable pub is_mechanism : Text → Bool
is_mechanism m = text_mem m (map codes mechanisms)

abbrev pub ids : List Row → List Text
ids [] = []
ids (r ∷ rows) = r.id ∷ ids rows

-- The ToolErrors of append_retirement.
pub data Refusal : Type 0 where
  bad_mechanism no_evidence no_note already_retired : Refusal

pub data Appended : Type 0 where
  appended : List Row → Appended
  refused : Refusal → Appended

-- append_retirement, on the rows of the ledger; the row holds the arguments and the time.
unfoldable pub append_retirement : Row → List Row → Appended
append_retirement row rows =
    if not (is_mechanism row.mechanism)
    then refused bad_mechanism
    else if is_empty (strip row.evidence)
    then refused no_evidence
    else if is_empty (strip row.note)
    then refused no_note
    else if text_mem row.id (ids rows)
    then refused already_retired
    else appended (rows ++ row ∷ [])

pub data Finding : Type 0 where
  duplicate_row wrong_mechanism still_present removed_unrecorded : Text → Finding
  missing_field : Text → String → Finding

-- `if test: fails.append(finding)`
abbrev pub when : Bool → Finding → List Finding
when true f = f ∷ []
when false f = []

-- The checks of one row; `seen` are the ids of the rows before it.
unfoldable pub row_findings : List Text → Row → List Finding
row_findings seen row =
    when (text_mem row.id seen) (duplicate_row row.id)
    ++ (when (not (is_mechanism row.mechanism)) (wrong_mechanism row.id)
        ++ (when (is_empty row.evidence) (missing_field row.id "evidence")
            ++ (when (is_empty row.note) (missing_field row.id "note")
                ++ (when (is_empty row.rev_retired_at) (missing_field row.id "rev_retired_at")
                    ++ (when (is_empty row.retired_at) (missing_field row.id "retired_at")
                        ++ when (is_empty row.retired_by) (missing_field row.id "retired_by"))))))

-- The first loop of lint.
unfoldable pub lint_rows : List Text → List Row → List Finding
lint_rows seen [] = []
lint_rows seen (row ∷ rows) = row_findings seen row ++ lint_rows (row.id ∷ seen) rows

-- The retired ids against those of the manifest.
unfoldable pub lint_present : List Text → List Row → List Finding
lint_present current [] = []
lint_present current (row ∷ rows) =
    when (text_mem row.id current) (still_present row.id) ++ lint_present current rows

-- The ids that the manifest's history has removed against the ledger.
unfoldable pub lint_removed : List Text → List Row → List Text → List Finding
lint_removed current rows [] = []
lint_removed current rows (rid ∷ removed) =
    when (not (text_mem rid (ids rows)) && not (text_mem rid current)) (removed_unrecorded rid)
    ++ lint_removed current rows removed

-- lint, for a ledger of schema version 1, with the manifest and its history at hand
unfoldable pub lint : List Text → List Text → List Row → List Finding
lint current removed rows =
    lint_rows [] rows ++ (lint_present current rows ++ lint_removed current rows removed)
