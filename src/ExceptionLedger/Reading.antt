-- ===== src/ExceptionLedger/Reading.antt =====
-- The rows of a section of docs/limitations.md, told line by line, and what `_scope_ledger_rows` reads.
use mathlib.Core.Path.{subst}
use mathlib.Core.Option.{some_inj}
use xr_browser.Prelude.{
  ◌≡◌, ◌≢◌, ◌↔◌, ◌⊎◌, refl, ap, ◌∙◌, Text, true, false, some, List, [], ◌∷◌, ◌++◌, codes,
  Bool-cases, inl, inr, has_text, is_empty, split_lines, starts_with, strip, text_eq, text_eq_iff,
  arith, if◌then◌else◌,
}
use xr_browser.ExceptionLedger.{
  Row, first_of, cells_of, row_of, is_row, section_rows, section, scope_ledger_rows,
}

pub record IsRowLine (line : Text) : Type 0 where
  pub barred : starts_with (codes "|") (strip line) ≡ true
  pub no_rule : has_text (codes "---") line ≡ false
  pub no_head : has_text (codes "scope_id") line ≡ false

-- A line that is read as a row: it starts with a bar, has neither "---" nor "scope_id" in it, and has
-- four cells or more, of which the first is filled. A fifth cell is the owner.
pub data LineRow (line : Text) : Row → Type 0 where
  unowned :
      {id scope reason expiry : Text}
      → IsRowLine line
      → cells_of line ≡ id ∷ scope ∷ reason ∷ expiry ∷ []
      → is_empty id ≡ false
      → LineRow line
          (record { scope_id = id; scope = scope; reason = reason; expiry = expiry; owner = [] })
  owned :
      {id scope reason expiry owner : Text} {rest : List Text}
      → IsRowLine line
      → cells_of line ≡ id ∷ scope ∷ reason ∷ expiry ∷ owner ∷ rest
      → is_empty id ≡ false
      → LineRow line
          (record { scope_id = id; scope = scope; reason = reason; expiry = expiry; owner = owner })

-- The rows of the lines behind the heading, up to the next line that starts with "#".
pub data Reads (heading : Text) : List Text → List Row → Type 0 where
  at_end : Reads heading [] []
  again :
      {line : Text} {lines : List Text} {rows : List Row}
      → strip line ≡ heading
      → Reads heading lines rows
      → Reads heading (line ∷ lines) rows
  closed :
      {line : Text} {lines : List Text}
      → strip line ≢ heading
      → starts_with (codes "#") (strip line) ≡ true
      → Reads heading (line ∷ lines) []
  row :
      {line : Text} {lines : List Text} {r : Row} {rows : List Row}
      → strip line ≢ heading
      → starts_with (codes "#") (strip line) ≡ false
      → LineRow line r
      → Reads heading lines rows
      → Reads heading (line ∷ lines) (r ∷ rows)
  other :
      {line : Text} {lines : List Text} {rows : List Row}
      → strip line ≢ heading
      → starts_with (codes "#") (strip line) ≡ false
      → ((r : Row) → LineRow line r → ⊥)
      → Reads heading lines rows
      → Reads heading (line ∷ lines) rows

-- The section under the first line that is the heading.
pub data HasSection (heading : Text) : List Text → List Row → Type 0 where
  here :
      {line : Text} {lines : List Text} {rows : List Row}
      → strip line ≡ heading
      → Reads heading lines rows
      → HasSection heading (line ∷ lines) rows
  below :
      {line : Text} {lines : List Text} {rows : List Row}
      → strip line ≢ heading
      → HasSection heading lines rows
      → HasSection heading (line ∷ lines) rows

-- What one line adds.
line_rows : Text → List Row
line_rows line = if is_row "scope_id" line then row_of (cells_of line) else []

is_row_iff : (line : Text) → (is_row "scope_id" line ≡ true) ↔ IsRowLine line
unfolding is_row
is_row_iff line = (
  λ e. record { barred = ground arith; no_rule = ground arith; no_head = ground arith },
  λ h. rw (h.barred, h.no_rule, h.no_head) refl,
)

LineRow-line_rows : {line : Text} {r : Row} → LineRow line r → line_rows line ≡ r ∷ []
unfolding line_rows row_of
LineRow-line_rows {line} (unowned h cells filled) = rw ((is_row_iff line).1 h, cells, filled) refl
LineRow-line_rows {line} (owned h cells filled) = rw ((is_row_iff line).1 h, cells, filled) refl

same_row : (r s : Row) → r ∷ [] ≡ s ∷ [] → r ≡ s
same_row r s e = cc e

cells-LineRow :
    (line : Text) (cs : List Text) (r : Row)
    → IsRowLine line
    → cells_of line ≡ cs
    → row_of cs ≡ r ∷ []
    → LineRow line r
unfolding row_of
cells-LineRow line (id ∷ scope ∷ reason ∷ expiry ∷ []) r is cells e =
    elim (Bool-cases (is_empty id)) [
      | inl no_id ↦ let none_read = rw no_id at e in cc
      | inr filled ↦ subst (LineRow line) (same_row _ r (rw filled at e)) (unowned is cells filled)
    ]
cells-LineRow line (id ∷ scope ∷ reason ∷ expiry ∷ owner ∷ rest) r is cells e =
    elim (Bool-cases (is_empty id)) [
      | inl no_id ↦ let none_read = rw no_id at e in cc
      | inr filled ↦ subst (LineRow line) (same_row _ r (rw filled at e)) (owned is cells filled)
    ]
cells-LineRow line [] r is cells e = cc
cells-LineRow line (a ∷ []) r is cells e = cc
cells-LineRow line (a ∷ b ∷ []) r is cells e = cc
cells-LineRow line (a ∷ b ∷ c ∷ []) r is cells e = cc

-- A row or none.
row_of-cases : (cs : List Text) → (row_of cs ≡ []) ⊎ ((r : Row) × (row_of cs ≡ r ∷ []))
unfolding row_of
row_of-cases (id ∷ scope ∷ reason ∷ expiry ∷ rest) = elim (Bool-cases (is_empty id)) [
  | inl no_id ↦ inl (rw no_id refl)
  | inr filled ↦
      let r : Row = record {
        scope_id = id;
        scope = scope;
        reason = reason;
        expiry = expiry;
        owner = first_of rest;
      } in
      inr (r, rw filled refl)
]
row_of-cases [] = inl refl
row_of-cases (a ∷ []) = inl refl
row_of-cases (a ∷ b ∷ []) = inl refl
row_of-cases (a ∷ b ∷ c ∷ []) = inl refl

line_rows-cases :
    (line : Text)
    → ((line_rows line ≡ []) × ((r : Row) → LineRow line r → ⊥))
      ⊎ ((r : Row) × (line_rows line ≡ r ∷ []) × LineRow line r)
unfolding line_rows
line_rows-cases line = elim (Bool-cases (is_row "scope_id" line)) [
  | inr no_line ↦
      let empty : line_rows line ≡ [] = rw no_line refl in
      inl (empty, λ r h. let found = LineRow-line_rows h in cc (empty, found))
  | inl is ↦ elim (row_of-cases (cells_of line)) [
    | inl no_row ↦
        let empty : line_rows line ≡ [] = rw (is, no_row) refl in
        inl (empty, λ r h. let found = LineRow-line_rows h in cc (empty, found))
    | inr (r, one) ↦ inr (
      r,
      rw (is, one) refl,
      cells-LineRow line (cells_of line) r ((is_row_iff line).0 is) refl one,
    )
  ]
]

section_rows-line :
    (heading line : Text) (lines : List Text)
    → text_eq (strip line) heading ≡ false
    → starts_with (codes "#") (strip line) ≡ false
    → section_rows heading (line ∷ lines) ≡ line_rows line ++ section_rows heading lines
unfolding section_rows line_rows
section_rows-line heading line lines far inside = elim (Bool-cases (is_row "scope_id" line)) [
  | inl is ↦ rw (far, inside, is) refl
  | inr no_line ↦ rw (far, inside, no_line) refl
]

apart : (s t : Text) → text_eq s t ≡ false → s ≢ t
apart s t e h = cc (e, (text_eq_iff s t).1 h)

apart_back : (s t : Text) → s ≢ t → text_eq s t ≡ false
apart_back s t n = elim (Bool-cases (text_eq s t)) [
  | inl same ↦ absurd (n ((text_eq_iff s t).0 same))
  | inr differ ↦ differ
]

section_rows-Reads :
    (heading : Text) (lines : List Text) → Reads heading lines (section_rows heading lines)
unfolding section_rows
section_rows-Reads heading [] = at_end
section_rows-Reads heading (line ∷ lines) = elim (Bool-cases (text_eq (strip line) heading)) [
  | inl same ↦
      rw same (again ((text_eq_iff (strip line) heading).0 same) (section_rows-Reads heading lines))
  | inr far ↦ elim (Bool-cases (starts_with (codes "#") (strip line))) [
    | inl ends ↦ rw (far, ends) (closed (apart (strip line) heading far) ends)
    | inr inside ↦ elim (line_rows-cases line) [
      | inl (empty, no_row) ↦
          rw (section_rows-line heading line lines far inside, empty)
            (other (apart (strip line) heading far) inside no_row
              (section_rows-Reads heading lines))
      | inr (r, one, is) ↦
          rw (section_rows-line heading line lines far inside, one)
            (row (apart (strip line) heading far) inside is (section_rows-Reads heading lines))
    ]
  ]
]

Reads-section_rows :
    {heading : Text} {lines : List Text} {rows : List Row}
    → Reads heading lines rows
    → section_rows heading lines ≡ rows
unfolding section_rows
Reads-section_rows at_end = refl
Reads-section_rows {heading} (again {line} same h) =
    rw ((text_eq_iff (strip line) heading).1 same) (Reads-section_rows h)
Reads-section_rows {heading} (closed {line} far ends) =
    rw (apart_back (strip line) heading far, ends) refl
Reads-section_rows {heading} (row {line} {lines} {r} far inside is h) =
    section_rows-line heading line lines (apart_back (strip line) heading far) inside
    ∙ rw (LineRow-line_rows is, Reads-section_rows h) refl
Reads-section_rows {heading} (other {line} {lines} far inside no_row h) =
    section_rows-line heading line lines (apart_back (strip line) heading far) inside
    ∙ elim (line_rows-cases line) [
      | inl (empty, none_is) ↦ rw (empty, Reads-section_rows h) refl
      | inr (r, one, is) ↦ absurd (no_row r is)
    ]

section-HasSection :
    (heading : Text) (lines : List Text) (rows : List Row)
    → section heading lines ≡ some rows
    → HasSection heading lines rows
unfolding section
section-HasSection heading [] rows e = cc
section-HasSection heading (line ∷ lines) rows e =
    elim (Bool-cases (text_eq (strip line) heading)) [
      | inl same ↦ here ((text_eq_iff (strip line) heading).0 same) (
          subst (Reads heading lines) (some_inj.0 (rw same at e))
            (section_rows-Reads heading lines))
      | inr far ↦
          below (apart (strip line) heading far)
            (section-HasSection heading lines rows (rw far at e))
    ]

HasSection-section :
    {heading : Text} {lines : List Text} {rows : List Row}
    → HasSection heading lines rows
    → section heading lines ≡ some rows
unfolding section
HasSection-section {heading} (here {line} same h) =
    rw ((text_eq_iff (strip line) heading).1 same) (ap some (Reads-section_rows h))
HasSection-section {heading} (below {line} far h) =
    rw (apart_back (strip line) heading far) (HasSection-section h)

pub scope_ledger_rows_iff :
    (text heading : Text) (rows : List Row)
    → (scope_ledger_rows text heading ≡ some rows) ↔ HasSection heading (split_lines text) rows
unfolding scope_ledger_rows
scope_ledger_rows_iff text heading rows =
    (section-HasSection heading (split_lines text) rows, λ h. HasSection-section h)
