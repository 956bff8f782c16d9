-- ===== src/GnArgs/Merged.antt =====
-- `merge_argsets` of build/gn/resolve_args.py, against a description by look-up.
use mathlib.Core.Path.{subst}
use xr_browser.Prelude.{
  Text, ◌≡◌, ◌≢◌, refl, sym, ap, ◌∙◌, Option, none, some, List, [], ◌∷◌, ◌++◌, append-nil,
  append_assoc, All, Bool-cases, inl, inr, text_eq, text_eq_iff, Dict, lookup, names, store,
  lookup-store, lookup-store_other, arith,
}
use xr_browser.GnArgs.{Override, overridden, merge_loop, merge_argsets}

-- No key twice.
abbrev pub HasDistinct : List Text → Type 0
HasDistinct [] = Unit
HasDistinct (k ∷ ks) = All (λ j. k ≢ j) ks × HasDistinct ks

-- The override where there is one, the base otherwise.
abbrev pub preferred : Option Text → Option Text → Option Text
preferred none base = base
preferred (some v) base = some v

-- The reports of an overriding argset: a flag that the base lacks, or has with the same value, has none;
-- one that the base has with another value is reported with both, in the order of the argset.
pub data Reported (common : Dict Text) : Dict Text → List Override → Type 0 where
  no_more : Reported common [] []
  fresh :
      {k v : Text} {over : Dict Text} {os : List Override}
      → lookup k common ≡ none
      → Reported common over os
      → Reported common ((k, v) ∷ over) os
  equal :
      {k v : Text} {over : Dict Text} {os : List Override}
      → lookup k common ≡ some v
      → Reported common over os
      → Reported common ((k, v) ∷ over) os
  changed :
      {k v old : Text} {over : Dict Text} {os : List Override}
      → lookup k common ≡ some old
      → old ≢ v
      → Reported common over os
      → Reported common ((k, v) ∷ over) (record { flag = k; base = old; override = v } ∷ os)

-- The overrides that the loop adds, looked up in the base.
differing : Dict Text → Dict Text → List Override
differing common [] = []
differing common ((k, v) ∷ over) = overridden k v (lookup k common) ++ differing common over

overridden-Reported :
    (common over : Dict Text) (k v : Text) (os : List Override) (o : Option Text)
    → lookup k common ≡ o
    → Reported common over os
    → Reported common ((k, v) ∷ over) (overridden k v o ++ os)
unfolding overridden
overridden-Reported common over k v os none is rest = fresh is rest
overridden-Reported common over k v os (some old) is rest = elim (Bool-cases (text_eq old v)) [
  | inl same ↦ rw same (equal (is ∙ ap some ((text_eq_iff old v).0 same)) rest)
  | inr other ↦ rw other (changed is (λ e. cc (other, (text_eq_iff old v).1 e)) rest)
]

differing-Reported : (common over : Dict Text) → Reported common over (differing common over)
unfolding differing
differing-Reported common [] = no_more
differing-Reported common ((k, v) ∷ over) =
    overridden-Reported common over k v (differing common over) (lookup k common) refl
      (differing-Reported common over)

lookup_absent : (k : Text) (d : Dict Text) → All (λ j. k ≢ j) (names d) → lookup k d ≡ none
unfolding lookup
lookup_absent k [] h = refl
lookup_absent k ((j, v) ∷ d) h = elim (Bool-cases (text_eq j k)) [
  | inl same ↦ absurd (h.0 (sym ((text_eq_iff j k).0 same)))
  | inr other ↦ rw other (lookup_absent k d h.1)
]

stored :
    (j k v : Text) (merged over : Dict Text)
    → j ≡ k
    → All (λ i. j ≢ i) (names over)
    → preferred (lookup k over) (lookup k (store j v merged)) ≡ some v
stored j k v merged over e h =
    subst (λ x. preferred (lookup x over) (lookup x (store j v merged)) ≡ some v) e
      (rw (lookup_absent j over h, lookup-store j v merged) refl)

lookup-merge_loop :
    (k : Text) (merged : Dict Text) (os : List Override) (over : Dict Text)
    → HasDistinct (names over)
    → lookup k (merge_loop merged os over).0 ≡ preferred (lookup k over) (lookup k merged)
unfolding merge_loop lookup
lookup-merge_loop k merged os [] d = refl
lookup-merge_loop k merged os ((j, v) ∷ over) d =
    let rest =
      lookup-merge_loop k (store j v merged) (os ++ overridden j v (lookup j merged)) over d.1 in
    elim (Bool-cases (text_eq j k)) [
      | inl same ↦ rw same (rest ∙ stored j k v merged over ((text_eq_iff j k).0 same) d.0)
      | inr other ↦
          let apart = λ (e : j ≡ k). absurd (ground (arith, other, (text_eq_iff j k).1 e)) in
          rw other (rest ∙ ap (preferred (lookup k over)) (lookup-store_other k j v merged apart))
    ]

differing-store :
    (j v : Text) (common over : Dict Text)
    → All (λ k. j ≢ k) (names over)
    → differing (store j v common) over ≡ differing common over
unfolding differing
differing-store j v common [] h = refl
differing-store j v common ((k, w) ∷ over) h =
    rw (lookup-store_other k j v common h.0, differing-store j v common over h.1) refl

merge_loop-differing :
    (merged : Dict Text) (os : List Override) (over : Dict Text)
    → HasDistinct (names over)
    → (merge_loop merged os over).1 ≡ os ++ differing merged over
unfolding merge_loop differing
merge_loop-differing merged os [] d = sym (append-nil os)
merge_loop-differing merged os ((k, v) ∷ over) d =
    merge_loop-differing (store k v merged) (os ++ overridden k v (lookup k merged)) over d.1
    ∙ ap (λ r. (os ++ overridden k v (lookup k merged)) ++ r) (differing-store k v merged over d.0)
    ∙ append_assoc os _ _

-- Where the overriding argset has no flag twice, a merge gives each flag its override, or else its
-- base, and reports the flags that the base has with another value, with both values, in order.
pub merge_argsets_lem :
    (common over : Dict Text)
    → HasDistinct (names over)
    → ((k : Text)
        → lookup k (merge_argsets common over).0 ≡ preferred (lookup k over) (lookup k common))
      × Reported common over (merge_argsets common over).1
unfolding merge_argsets
merge_argsets_lem common over d = (
  λ k. lookup-merge_loop k common [] over d,
  rw (merge_loop-differing common [] over d) (differing-Reported common over),
)
