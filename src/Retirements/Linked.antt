-- ===== src/Retirements/Linked.antt =====
-- `lint`, against what it looks for in the ledger, the manifest and its history.
use xr_browser.Prelude.{
  append-eq-nil, Text, true, false, ◌≡◌, ◌↔◌, refl, ◌||◌, List, [], ◌∷◌, All, text_mem, Bool-cases,
  inl, inr, arith,
}
use xr_browser.Retirements.{Row, ids, lint_rows, lint_present, lint_removed, lint}

lint_present_iff :
    (current : List Text) (rows : List Row)
    → (lint_present current rows ≡ []) ↔ All (λ i. text_mem i current ≡ false) (ids rows)
unfolding lint_present
lint_present_iff current [] = (λ e. tt, λ a. refl)
lint_present_iff current (row ∷ rows) = (
  λ e. elim (Bool-cases (text_mem row.id current)) [
    | inl there ↦ absurd (ground arith)
    | inr gone ↦ (gone, (lint_present_iff current rows).0 (ground arith))
  ],
  λ a. rw a.0 ((lint_present_iff current rows).1 a.1),
)

lint_removed_iff :
    (current : List Text) (rows : List Row) (removed : List Text)
    → (lint_removed current rows removed ≡ [])
      ↔ All (λ i. (text_mem i (ids rows) || text_mem i current) ≡ true) removed
unfolding lint_removed
lint_removed_iff current rows [] = (λ e. tt, λ a. refl)
lint_removed_iff current rows (rid ∷ removed) = (
  λ e. elim (Bool-cases (text_mem rid (ids rows) || text_mem rid current)) [
    | inl known ↦ (known, (lint_removed_iff current rows removed).0 (ground arith))
    | inr unknown ↦ absurd (ground arith)
  ],
  λ a. ground (arith, a.0, (lint_removed_iff current rows removed).1 a.1),
)

-- The lint finds nothing exactly if the rows have no findings, no retired patch is in the manifest,
-- and every patch that the manifest's history has removed is in the ledger or in the manifest again.
pub lint-eq-nil_iff :
    (current removed : List Text) (rows : List Row)
    → (lint current removed rows ≡ []) ↔ (
        (lint_rows [] rows ≡ [])
        × All (λ i. text_mem i current ≡ false) (ids rows)
        × All (λ i. (text_mem i (ids rows) || text_mem i current) ≡ true) removed)
unfolding lint
lint-eq-nil_iff current removed rows = (
  λ e.
      let (own, rest) = append-eq-nil (lint_rows [] rows) _ e in
      let (present, unrecorded) = append-eq-nil (lint_present current rows) _ rest in
      (
        own,
        (lint_present_iff current rows).0 present,
        (lint_removed_iff current rows removed).0 unrecorded,
      ),
  λ (own, present, unrecorded).
      rw (own, (lint_present_iff current rows).1 present)
        ((lint_removed_iff current rows removed).1 unrecorded),
)
