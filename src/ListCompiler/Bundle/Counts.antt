-- ===== src/ListCompiler/Bundle/Counts.antt =====
-- The rows and counts of the refusal table of `compile_config`.
use xr_browser.Prelude.{
  ℕ, zero, suc, true, ◌+◌, ◌≤◌, ◌≡◌, refl, sym, ◌∙◌, Option, none, some, List, [], ◌∷◌, ◌++◌,
  length, text_eq_iff, arith, if◌then◌else◌, Bool-cases, Option-cases, inl, inr, ◌↔◌,
}
use xr_browser.ListCompiler.Outcome.{Refusal}
use xr_browser.ListCompiler.Bundle.{
  Tally, Key, key, key_eq, index_of, bump, Table, empty_table, tally, tally_all,
}

key_eq_iff : (j k : Key) → (key_eq j k ≡ true) ↔ (j ≡ k)
unfolding key_eq
key_eq_iff (a, b) (c, d) = ground (arith, text_eq_iff a c, text_eq_iff b d)

-- How many refusals have the key.
pub occurrences : Key → List Refusal → ℕ
occurrences k [] = 0
occurrences k (r ∷ rs) = (if key_eq k (key r) then 1 else 0) + occurrences k rs

-- What the rows of the table count for the key, all together.
unfoldable pub counted : Key → List Tally → ℕ
counted k [] = 0
counted k (t ∷ agg) = (if key_eq k (key t.refusal) then t.count else 0) + counted k agg

-- The rows of the table for the key.
pub rows : Key → List Tally → ℕ
rows k [] = 0
rows k (t ∷ agg) = (if key_eq k (key t.refusal) then 1 else 0) + rows k agg

-- The position of the first row for the key.
position : Key → List Tally → Option ℕ
position k [] = none
position k (t ∷ agg) =
    if key_eq k (key t.refusal)
    then some 0
    else elim (position k agg) [ none ↦ none | some i ↦ some (suc i) ]

-- The invariant of the loop: the index holds positions, and no key has two rows.
record IsIndexed (t : Table) : Type 0 where
  positions : (k : Key) → index_of k t.index ≡ position k t.agg
  single : (k : Key) → rows k t.agg ≤ 1

position-append :
    (k : Key) (agg : List Tally) (t : Tally)
    → position k (agg ++ t ∷ []) ≡ elim (position k agg) [
      | some i ↦ some i
      | none ↦ if key_eq k (key t.refusal) then some (length agg) else none
    ]
unfolding position
position-append k [] t = refl
position-append k (u ∷ agg) t = ground (arith, position-append k agg t)

index_of-append :
    (k j : Key) (i : ℕ) (index : List (Key × ℕ))
    → index_of k (index ++ (j, i) ∷ [])
      ≡ elim (index_of k index) [ some n ↦ some n | none ↦ if key_eq k j then some i else none ]
unfolding index_of
index_of-append k j i [] = refl
index_of-append k j i ((l, n) ∷ index) = ground (arith, index_of-append k j i index)

rows-append :
    (k : Key) (agg : List Tally) (t : Tally)
    → rows k (agg ++ t ∷ []) ≡ rows k agg + (if key_eq k (key t.refusal) then 1 else 0)
unfolding rows
rows-append k [] t = omega arith
rows-append k (u ∷ agg) t = omega (arith, rows-append k agg t)

counted-append :
    (k : Key) (agg : List Tally) (t : Tally)
    → counted k (agg ++ t ∷ []) ≡ counted k agg + (if key_eq k (key t.refusal) then t.count else 0)
unfolding counted
counted-append k [] t = omega arith
counted-append k (u ∷ agg) t = omega (arith, counted-append k agg t)

rows_absent : (k : Key) (agg : List Tally) → position k agg ≡ none → rows k agg ≡ 0
unfolding rows position
rows_absent k [] h = refl
rows_absent k (t ∷ agg) h = ground (arith, rows_absent k agg)

position-bump : (k : Key) (i : ℕ) (agg : List Tally) → position k (bump i agg) ≡ position k agg
unfolding position bump
position-bump k i [] = refl
position-bump k zero (t ∷ agg) = refl
position-bump k (suc i) (t ∷ agg) = rw (position-bump k i agg)

rows-bump : (k : Key) (i : ℕ) (agg : List Tally) → rows k (bump i agg) ≡ rows k agg
unfolding rows bump
rows-bump k i [] = refl
rows-bump k zero (t ∷ agg) = refl
rows-bump k (suc i) (t ∷ agg) = rw (rows-bump k i agg)

position-later :
    (k : Key) (i : ℕ) (t : Tally) (agg : List Tally)
    → position k (t ∷ agg) ≡ some (suc i)
    → position k agg ≡ some i
unfolding position
position-later k i t agg h = ground arith

-- A row for a key that has none leaves every key with one row at most.
new_row_single :
    (k : Key) (t : Table) (r : Refusal)
    → rows k t.agg ≤ 1
    → position (key r) t.agg ≡ none
    → rows k (t.agg ++ record { refusal = r; count = 1 } ∷ []) ≤ 1
new_row_single k t r h unseen = elim (Bool-cases (key_eq k (key r))) [
  | inl same ↦
      let e : k ≡ key r = (key_eq_iff k (key r)).0 same in
      let none_yet : rows k t.agg ≡ 0 = rw e (rows_absent (key r) t.agg unseen) in
      rw (rows-append, same) (omega arith)
  | inr other ↦ rw (rows-append, other) (omega arith)
]

-- A bump at the position of `j` counts one more for `j`, and no more for any other key.
counted-bump :
    (k j : Key) (i : ℕ) (agg : List Tally)
    → position j agg ≡ some i
    → counted k (bump i agg) ≡ counted k agg + (if key_eq k j then 1 else 0)
unfolding counted bump position
counted-bump k j i [] h = cc
counted-bump k j zero (t ∷ agg) h = elim (Bool-cases (key_eq j (key t.refusal))) [
  | inl same ↦ rw ((key_eq_iff j (key t.refusal)).0 same) (ground arith)
  | inr other ↦ absurd (ground (arith, Option-cases (position j agg)))
]
counted-bump k j (suc i) (t ∷ agg) h =
    omega (arith, counted-bump k j i agg (position-later j i t agg h))

tally-IsIndexed : (t : Table) (r : Refusal) → IsIndexed t → IsIndexed (tally t r)
unfolding tally
tally-IsIndexed t r v = elim (Option-cases (index_of (key r) t.index)) [
  | inl new ↦
      let unseen : position (key r) t.agg ≡ none = sym (v.positions (key r)) ∙ new in
      rw (new, tally)
        (record {
          positions = λ k.
              index_of-append k (key r) (length t.agg) t.index
              ∙ rw (v.positions k) (sym (position-append k t.agg _));
          single = λ k. new_row_single k t r (v.single k) unseen;
        })
  | inr (i, old) ↦
      rw (old, tally)
        (record {
          positions = λ k. v.positions k ∙ sym (position-bump k i t.agg);
          single = λ k. rw rows-bump (v.single k);
        })
]

counted-tally :
    (k : Key) (t : Table) (r : Refusal)
    → IsIndexed t
    → counted k (tally t r).agg ≡ counted k t.agg + (if key_eq k (key r) then 1 else 0)
unfolding tally
counted-tally k t r v = elim (Option-cases (index_of (key r) t.index)) [
  | inl new ↦ rw (new, tally) (counted-append k t.agg (record { refusal = r; count = 1 }))
  | inr (i, old) ↦
      rw (old, tally) (counted-bump k (key r) i t.agg (sym (v.positions (key r)) ∙ old))
]

tally_all_lem :
    (k : Key) (t : Table) (rs : List Refusal)
    → IsIndexed t
    → (counted k (tally_all t rs).agg ≡ counted k t.agg + occurrences k rs)
      × (rows k (tally_all t rs).agg ≤ 1)
unfolding tally_all occurrences
tally_all_lem k t [] v = (omega arith, v.single k)
tally_all_lem k t (r ∷ rs) v =
    let (same, once) = tally_all_lem k (tally t r) rs (tally-IsIndexed t r v) in
    (omega (arith, counted-tally k t r v), once)

empty_table-IsIndexed : IsIndexed empty_table
unfolding rows index_of position
empty_table-IsIndexed = record { positions = λ k. refl; single = λ k. omega arith }

-- For every pair of directive and reason the table has at most one row, and it counts the refusals
-- with that pair.
pub tally_all-counts :
    (k : Key) (rs : List Refusal)
    → (counted k (tally_all empty_table rs).agg ≡ occurrences k rs)
      × (rows k (tally_all empty_table rs).agg ≤ 1)
unfolding counted
tally_all-counts k rs =
    let (same, once) = tally_all_lem k empty_table rs empty_table-IsIndexed in (omega arith, once)
