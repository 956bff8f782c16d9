-- ===== src/Retirements/Tests.antt =====
-- A ledger of one retirement, an append to it, and the lint.
use xr_browser.Prelude.{
  Text, ◌≡◌, ◌↔◌, refl, ◌||◌, true, false, List, [], ◌∷◌, All, text_mem, text_eq, strip, lstrip,
  codes,
}
use xr_browser.Retirements.{
  Row, ids, is_mechanism, appended, removed_unrecorded, append_retirement, row_findings, lint_rows,
  lint_present, lint_removed, lint,
}
use xr_browser.Retirements.Kept.{append_retirement_clean}
use xr_browser.Retirements.Linked.{lint-eq-nil_iff}

abbrev row_of : Text → Row
row_of id = record {
  id = id;
  rev_retired_at = codes "f00d";
  mechanism = codes "upstreamed";
  evidence = codes "cl/1";
  note = codes "none";
  retired_at = codes "2026";
  retired_by = codes "me";
}

abbrev one_row : List Row
one_row = row_of (codes "p1") ∷ []

abbrev two_rows : List Row
two_rows = row_of (codes "p1") ∷ row_of (codes "p2") ∷ []

ledger_run : Unit {0}
unfolding append_retirement lint lint_rows lint_present lint_removed row_findings is_mechanism strip
    lstrip text_eq
ledger_run = tt

second_append : append_retirement (row_of (codes "p2")) one_row ≡ appended two_rows
unfolding ledger_run
second_append = refl

unrecorded_removal : lint [] (codes "p3" ∷ []) one_row ≡ removed_unrecorded (codes "p3") ∷ []
unfolding ledger_run
unrecorded_removal = refl

one_row_clean : lint_rows [] one_row ≡ []
unfolding ledger_run
one_row_clean = refl

append_retirement_clean_example : lint_rows [] two_rows ≡ []
append_retirement_clean_example =
    append_retirement_clean (row_of (codes "p2")) one_row two_rows refl refl refl one_row_clean
      second_append

lint-eq-nil_iff_example : (lint (codes "p4" ∷ []) (codes "p1" ∷ []) one_row ≡ []) ↔ (
    (lint_rows [] one_row ≡ [])
    × All (λ i. text_mem i (codes "p4" ∷ []) ≡ false) (ids one_row)
    × All
        (λ i. (text_mem i (ids one_row) || text_mem i (codes "p4" ∷ [])) ≡ true)
        (codes "p1" ∷ []))
lint-eq-nil_iff_example = lint-eq-nil_iff (codes "p4" ∷ []) (codes "p1" ∷ []) one_row
