-- ===== src/ExceptionLedger/Waived.antt =====
-- The exceptions of the isolation matrix that the ledger of exception_ledger_check.py carries.
use xr_browser.Prelude.{
  flag, flag-eq-nil_iff, All-map, ℕ, ◌≡◌, ◌↔◌, refl, ◌≢◌, ◌≤◌, Text, Bool, true, false, not, ◌&&◌,
  ◌||◌, Option, none, some, List, [], ◌∷◌, ◌++◌, codes, any, All, append-eq-nil, Bool-cases, inl,
  inr, is_empty, text_eq, text_eq_iff, text_mem, Dict, lookup, names, arith,
}
use xr_browser.ExceptionLedger.{Waiver, ledger_rows}
use xr_browser.ExceptionLedger.Rows.{Reader}
use xr_browser.ExceptionLedger.Matrix.{
  Cell, insert_mechanism, exception_mechs, date_failures, waiver_failures, mech_failures, orphans,
  orphan, check, check_rows, empty_owner,
}

-- Whether a cell of the matrix is an exception of the mechanism.
abbrev pub is_exception : Text → List Cell → Bool
is_exception mech = any (λ c. text_eq mech c.mechanism && text_eq c.verdict (codes "EXCEPTION"))

-- A date that has been read and has not passed.
pub data IsFuture (today : ℕ) : Option ℕ → Type 0 where
  future : {day : ℕ} → today ≤ day → IsFuture today (some day)

-- A row with an owner and a date that has not passed.
pub data IsWaived (r : Reader) (today : ℕ) : Option Waiver → Type 0 where
  waived :
      {row : Waiver}
      → is_empty row.owner ≡ false
      → is_empty row.expiry ≡ false
      → IsFuture today (r.date_of row.expiry)
      → IsWaived r today (some row)

text_mem-insert_mechanism :
    (m k : Text) (ns : List Text)
    → text_mem m (insert_mechanism k ns) ≡ (text_eq m k || text_mem m ns)
unfolding insert_mechanism
text_mem-insert_mechanism m k [] = refl
text_mem-insert_mechanism m k (n ∷ ns) =
    ground (arith, text_eq_iff k n, text_mem-insert_mechanism m k ns)

text_mem-exception_mechs :
    (m : Text) (cells : List Cell) → text_mem m (exception_mechs cells) ≡ is_exception m cells
unfolding exception_mechs
text_mem-exception_mechs m [] = refl
text_mem-exception_mechs m (c ∷ cells) = ground (
  arith,
  text_mem-insert_mechanism m c.mechanism (exception_mechs cells),
  text_mem-exception_mechs m cells,
)

-- Every element of a list of texts, by membership.
All-text_mem_iff :
    (P : Text → Type 0) (ms : List Text) → All P ms ↔ ((m : Text) → text_mem m ms ≡ true → P m)
All-text_mem_iff P [] = (λ h m e. cc, λ h. tt)
All-text_mem_iff P (n ∷ ms) =
    let (to, from) = All-text_mem_iff P ms in
    (
      λ h m e. elim (Bool-cases (text_eq m n)) [
        | inl same ↦ rw ((text_eq_iff m n).0 same) h.0
        | inr other ↦ to h.1 m (ground arith)
      ],
      λ h. (h n (ground (arith, text_eq_iff n n)), from (λ m e. h m (ground arith))),
    )

module _ (r : Reader) (today : ℕ) where
  date_failures-eq-nil_iff :
      (mech : Text) (o : Option ℕ) → (date_failures mech today o ≡ []) ↔ IsFuture today o
  unfolding date_failures
  date_failures-eq-nil_iff mech none = (λ e. cc, λ w. elim w [ ])
  date_failures-eq-nil_iff mech (some day) =
      (λ e. future (ground arith), λ w. elim w [ future l ↦ ground arith ])

  waiver_failures-eq-nil_iff :
      (mech : Text) (o : Option Waiver) → (waiver_failures r today mech o ≡ []) ↔ IsWaived r today o
  unfolding waiver_failures
  waiver_failures-eq-nil_iff mech none = (λ e. cc, λ w. elim w [ ])
  waiver_failures-eq-nil_iff mech (some row) =
      let dates = date_failures-eq-nil_iff mech (r.date_of row.expiry) in
      (
        λ e.
            let (owned, e1) = append-eq-nil (flag (is_empty row.owner) (empty_owner mech)) _ e in
            elim (Bool-cases (is_empty row.expiry)) [
              | inl missing ↦ ground arith
              | inr filled ↦
                  waived ((flag-eq-nil_iff (is_empty row.owner) (empty_owner mech)).0 owned) filled
                    (dates.0 (rw filled at e1))
            ],
        λ w. elim w [ waived owned filled later ↦ rw (owned, filled) (dates.1 later) ],
      )

  mech_failures-eq-nil_iff :
      (rows : Dict Waiver) (mechs : List Text)
      → (mech_failures r today rows mechs ≡ [])
        ↔ All (λ mech. IsWaived r today (lookup mech rows)) mechs
  unfolding mech_failures
  mech_failures-eq-nil_iff rows [] = (λ e. tt, λ h. refl)
  mech_failures-eq-nil_iff rows (mech ∷ mechs) =
      let here = waiver_failures-eq-nil_iff mech (lookup mech rows) in
      let later = mech_failures-eq-nil_iff rows mechs in
      (
        λ e.
            let (e1, e2) = append-eq-nil (waiver_failures r today mech (lookup mech rows)) _ e in
            (here.0 e1, later.0 e2),
        λ h. rw (here.1 h.0) (later.1 h.1),
      )

orphans-eq-nil_iff :
    (mechs ms : List Text) → (orphans mechs ms ≡ []) ↔ All (λ m. text_mem m mechs ≡ true) ms
unfolding orphans
orphans-eq-nil_iff mechs [] = (λ e. tt, λ h. refl)
orphans-eq-nil_iff mechs (m ∷ ms) =
    let later = orphans-eq-nil_iff mechs ms in
    (
      λ e.
          let (e1, e2) = append-eq-nil (flag (not (text_mem m mechs)) (orphan m)) _ e in
          let known = (flag-eq-nil_iff (not (text_mem m mechs)) (orphan m)).0 e1 in
          (ground arith, later.0 e2),
      λ h. rw h.0 (later.1 h.1),
    )

-- The exceptions of the matrix and the rows that `ledger_rows` keeps are of the same mechanisms, and
-- every row waives its own.
abbrev pub AreWaived : Reader → ℕ → Dict Waiver → List Cell → Type 0
AreWaived r today rows cells =
    ((mech : Text) → is_exception mech cells ≡ true → IsWaived r today (lookup mech rows))
    × All (λ mech. is_exception mech cells ≡ true) (names rows)

failures-eq-nil_iff :
    (r : Reader) (today : ℕ) (rows : Dict Waiver) (cells : List Cell)
    → (mech_failures r today rows (exception_mechs cells)
          ++ orphans (exception_mechs cells) (names rows)
        ≡ [])
      ↔ AreWaived r today rows cells
failures-eq-nil_iff r today rows cells =
    let mechs = exception_mechs cells in
    let waived_iff = mech_failures-eq-nil_iff r today rows mechs in
    let each = All-text_mem_iff (λ mech. IsWaived r today (lookup mech rows)) mechs in
    let listed = orphans-eq-nil_iff mechs (names rows) in
    (
      λ e.
          let (e1, e2) = append-eq-nil (mech_failures r today rows mechs) _ e in
          (
            λ m h. each.0 (waived_iff.0 e1) m (rw (text_mem-exception_mechs m cells) h),
            All-map (names rows) (λ m h. rw (text_mem-exception_mechs m cells) at h) (listed.0 e2),
          ),
      λ h.
          let all_waived =
            waived_iff.1 (each.1 (λ m e. h.0 m (rw text_mem-exception_mechs at e))) in
          let all_listed =
            listed.1 (All-map (names rows) (λ m e. rw (text_mem-exception_mechs m cells) e) h.1) in
          rw all_waived all_listed,
    )

check_rows-eq-nil_iff :
    (r : Reader) (today : ℕ) (rows : Dict Waiver) (cells : List Cell)
    → (check_rows r today rows (some cells) ≡ []) ↔ ((rows ≢ []) × AreWaived r today rows cells)
check_rows-eq-nil_iff r today [] cells = (λ e. cc, λ h. absurd (h.0 refl))
check_rows-eq-nil_iff r today (row ∷ rows) cells =
    let law = failures-eq-nil_iff r today (row ∷ rows) cells in
    (λ e. (λ n. cc, law.0 e), λ h. law.1 h.1)

-- Where the matrix can be read, the check passes exactly when `ledger_rows` reads a row of the §1.13
-- ledger at least, the row that it keeps of each mechanism with an exception in the matrix is there
-- and has an owner and a date that is not before today, and each row that it keeps is of a mechanism
-- with an exception in the matrix.
pub check-eq-nil_iff :
    (r : Reader) (today : ℕ) (text : Text) (cells : List Cell)
    → (check r today (some text) (some cells) ≡ [])
      ↔ ((ledger_rows text ≢ []) × AreWaived r today (ledger_rows text) cells)
unfolding check
check-eq-nil_iff r today text cells = check_rows-eq-nil_iff r today (ledger_rows text) cells
