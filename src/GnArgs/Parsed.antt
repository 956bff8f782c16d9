-- ===== src/GnArgs/Parsed.antt =====
-- `parse_argset` of build/gn/resolve_args.py, against the flags that the lines set.
use mathlib.Core.Path.{subst}
use xr_browser.Prelude.{
  ℕ, ◌+◌, Text, false, ◌≡◌, ◌≢◌, refl, sym, ap, ◌∙◌, Option, none, some, List, [], ◌∷◌, ◌++◌,
  append-nil, append_assoc, All, Bool-cases, Option-cases, inl, inr, is_empty, text_eq_iff,
  text_mem, Dict, names, store, split_lines, arith, if◌then◌else◌,
}
use xr_browser.GnArgs.{parsed, content, match_line, parse_lines, parse_argset}
use xr_browser.GnArgs.Merged.{HasDistinct}

-- The flags that the lines set, in order, where a blank line sets none; `none` if a line is none of
-- these.
pub flags_of : List Text → Option (Dict Text)
flags_of [] = some []
flags_of (raw ∷ raws) = elim (flags_of raws) [
  | none ↦ none
  | some d ↦
      if is_empty (content raw)
      then some d
      else elim (match_line (content raw)) [ none ↦ none | some f ↦ some (f ∷ d) ]
]

store_new :
    (k v : Text) (d : Dict Text) → text_mem k (names d) ≡ false → store k v d ≡ d ++ (k, v) ∷ []
unfolding store
store_new k v [] h = refl
store_new k v ((j, w) ∷ d) h = ground (arith, text_eq_iff k j, text_eq_iff j k, store_new k v d)

names-append : (d : Dict Text) (k v : Text) → names (d ++ (k, v) ∷ []) ≡ names d ++ k ∷ []
names-append [] k v = refl
names-append ((j, w) ∷ d) k v = ap (λ ks. j ∷ ks) (names-append d k v)

All-snoc : (P : Text → Type 0) (ts : List Text) (k : Text) → All P ts → P k → All P (ts ++ k ∷ [])
All-snoc P [] k a h = (h, tt)
All-snoc P (t ∷ ts) k a h = (a.0, All-snoc P ts k a.1 h)

HasDistinct-snoc :
    (ks : List Text) (k : Text)
    → text_mem k ks ≡ false
    → HasDistinct ks
    → HasDistinct (ks ++ k ∷ [])
HasDistinct-snoc [] k h d = (tt, tt)
HasDistinct-snoc (j ∷ ks) k h d = (
  All-snoc (λ i. j ≢ i) ks k d.0 (λ e. absurd (ground (arith, (text_eq_iff k j).1 (sym e)))),
  HasDistinct-snoc ks k (ground arith) d.1,
)

parsed-injective : {d e : Dict Text} → parsed d ≡ parsed e → d ≡ e
parsed-injective h = cc

-- What is parsed behind the flags that are there.
abbrev Extends : List Text → Dict Text → Dict Text → Type 0
Extends raws out d = (fs : Dict Text) × (flags_of raws ≡ some fs) × (d ≡ out ++ fs)

parse_lines_lem :
    (n : ℕ) (raws : List Text) (out d : Dict Text)
    → parse_lines n raws out ≡ parsed d
    → HasDistinct (names out)
    → HasDistinct (names d) × Extends raws out d
unfolding parse_lines flags_of
parse_lines_lem n [] out d h k =
    let same = parsed-injective h in
    (subst (λ e. HasDistinct (names e)) same k, ([], refl, sym same ∙ sym (append-nil out)))
parse_lines_lem n (raw ∷ raws) out d h k = elim (Bool-cases (is_empty (content raw))) [
  | inl blank ↦
      let (distinct, (fs, flags, grown)) =
        parse_lines_lem (n + 1) raws out d (ground (arith, h, blank)) k in
      (distinct, (fs, rw (flags, blank) refl, grown))
  | inr filled ↦ elim (Option-cases (match_line (content raw))) [
    | inl unmatched ↦ absurd (ground arith)
    | inr ((name, value), matched) ↦ elim (Bool-cases (text_mem name (names out))) [
      | inl twice ↦ absurd (ground arith)
      | inr new ↦
          let step : parse_lines (n + 1) raws (out ++ (name, value) ∷ []) ≡ parsed d =
            ap (parse_lines (n + 1) raws) (sym (store_new name value out new)) ∙ ground arith in
          let (distinct, (fs, flags, grown)) =
            parse_lines_lem (n + 1) raws (out ++ (name, value) ∷ []) d step
              (rw names-append (HasDistinct-snoc (names out) name new k)) in
          (
            distinct,
            (
              (name, value) ∷ fs,
              rw (flags, filled, matched) refl,
              grown ∙ append_assoc out ((name, value) ∷ []) fs,
            ),
          )
    ]
  ]
]

-- An argset that parses has no flag twice, and holds the flags that its lines set, in order; every
-- line that is not blank sets one.
pub parse_argset-HasDistinct :
    (text : Text) (d : Dict Text)
    → parse_argset text ≡ parsed d
    → HasDistinct (names d) × (flags_of (split_lines text) ≡ some d)
unfolding parse_argset
parse_argset-HasDistinct text d h =
    let (distinct, (fs, flags, grown)) = parse_lines_lem 1 (split_lines text) [] d h tt in
    (distinct, flags ∙ ap some (sym grown))
