-- ===== src/Retirements/Kept.antt =====
-- `append_retirement` against the lint of the rows.
use xr_browser.Prelude.{
  append-eq-nil, Text, true, false, ◌≡◌, refl, sym, ap, ◌∙◌, List, [], ◌∷◌, ◌++◌, is_empty, strip,
  text_mem, arith,
}
use xr_browser.Retirements.{
  Row, is_mechanism, ids, appended, append_retirement, row_findings, lint_rows,
}

-- The tests of a row's fields are met.
record HasFields (row : Row) : Type 0 where
  mechanism : is_mechanism row.mechanism ≡ true
  evidence : is_empty row.evidence ≡ false
  note : is_empty row.note ≡ false
  rev_retired_at : is_empty row.rev_retired_at ≡ false
  retired_at : is_empty row.retired_at ≡ false
  retired_by : is_empty row.retired_by ≡ false

row_clean :
    (seen : List Text) (row : Row)
    → HasFields row
    → text_mem row.id seen ≡ false
    → row_findings seen row ≡ []
unfolding row_findings
row_clean seen row f new =
    rw (new, f.mechanism, f.evidence, f.note, f.rev_retired_at, f.retired_at, f.retired_by) refl

lint_rows_snoc :
    (seen : List Text) (rows : List Row) (row : Row)
    → HasFields row
    → text_mem row.id seen ≡ false
    → text_mem row.id (ids rows) ≡ false
    → lint_rows seen rows ≡ []
    → lint_rows seen (rows ++ row ∷ []) ≡ []
unfolding lint_rows
lint_rows_snoc seen [] row f new other h = rw (row_clean seen row f new) refl
lint_rows_snoc seen (r ∷ rows) row f new other h =
    let (here, later) = append-eq-nil (row_findings seen r) (lint_rows (r.id ∷ seen) rows) h in
    rw here (lint_rows_snoc (r.id ∷ seen) rows row f (ground arith) (ground arith) later)

strip_filled : (t : Text) → is_empty (strip t) ≡ false → is_empty t ≡ false
unfolding strip
strip_filled [] h = h
strip_filled (c ∷ t) h = refl

appended_parts :
    (row : Row) (rows next : List Row)
    → append_retirement row rows ≡ appended next
    → (is_mechanism row.mechanism ≡ true)
      × (is_empty (strip row.evidence) ≡ false)
      × (is_empty (strip row.note) ≡ false)
      × (text_mem row.id (ids rows) ≡ false)
      × (rows ++ row ∷ [] ≡ next)
unfolding append_retirement
appended_parts row rows next h =
    (ground arith, ground arith, ground arith, ground arith, ground arith)

-- Where the rows of the ledger have no findings, an append that succeeds with a revision, a time
-- and a person leaves a ledger whose rows have none.
pub append_retirement_clean :
    (row : Row) (rows next : List Row)
    → is_empty row.rev_retired_at ≡ false
    → is_empty row.retired_at ≡ false
    → is_empty row.retired_by ≡ false
    → lint_rows [] rows ≡ []
    → append_retirement row rows ≡ appended next
    → lint_rows [] next ≡ []
append_retirement_clean row rows next rev time person clean h =
    let (mechanism, evidence, note, new, same) = appended_parts row rows next h in
    let fields : HasFields row = record {
      mechanism = mechanism;
      evidence = strip_filled row.evidence evidence;
      note = strip_filled row.note note;
      rev_retired_at = rev;
      retired_at = time;
      retired_by = person;
    } in
    ap (lint_rows []) (sym same) ∙ lint_rows_snoc [] rows row fields refl new clean
