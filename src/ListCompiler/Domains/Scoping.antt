-- ===== src/ListCompiler/Domains/Scoping.antt =====
-- What `split_domains` and `split_cosmetic_domains` make of the entries of an option.
use mathlib.Core.Path.{subst₂}
use xr_browser.Prelude.{
  sym, ℕ, Text, false, ◌≡◌, ◌≢◌, refl, ◌∙◌, some, List, [], ◌∷◌, ◌++◌, is_empty, append-nil,
  append_assoc, All, split, arith, ◌==◌, Bool-cases, inl, inr, ==_iff,
}
use xr_browser.ListCompiler.Domains.{
  add_entry, add_entries, non_empty, collect, strip_all, split_domains, split_cosmetic_domains,
}

abbrev pub IsFilled : Text → Type 0
IsFilled t = is_empty t ≡ false

-- Entry by entry: what "~" marks is excluded, without the mark, and what it does not is included.
pub data Scoping : List Text → List Text → List Text → Type 0 where
  done : Scoping [] [] []
  included :
      {es inc exc : List Text} (c : ℕ) (r : Text)
      → c ≢ b'~'
      → Scoping es inc exc
      → Scoping ((c ∷ r) ∷ es) ((c ∷ r) ∷ inc) exc
  excluded :
      {es inc exc : List Text} (c : ℕ) (r : Text)
      → c ≡ b'~'
      → IsFilled r
      → Scoping es inc exc
      → Scoping ((c ∷ r) ∷ es) inc (r ∷ exc)

pub Scoping-IsFilled :
    {es inc exc : List Text} → Scoping es inc exc → All IsFilled inc × All IsFilled exc
Scoping-IsFilled done = (tt, tt)
Scoping-IsFilled (included c r h s) = ((refl, (Scoping-IsFilled s).0), (Scoping-IsFilled s).1)
Scoping-IsFilled (excluded c r e h s) = ((Scoping-IsFilled s).0, (h, (Scoping-IsFilled s).1))

-- The entries behind what the loop has gathered.
record Gathered (es i e : List Text) (inc exc : List Text) : Type 0 where
  later_inc : List Text
  later_exc : List Text
  scoping : Scoping es later_inc later_exc
  all_inc : inc ≡ i ++ later_inc
  all_exc : exc ≡ e ++ later_exc

add_entries_gather :
    (i e es inc exc : List Text) → add_entries (i, e) es ≡ some (inc, exc) → Gathered es i e inc exc
unfolding add_entries add_entry
add_entries_gather i e [] inc exc h = record {
  later_inc = [];
  later_exc = [];
  scoping = done;
  all_inc = rw append-nil (ground arith);
  all_exc = rw append-nil (ground arith);
}
add_entries_gather i e ([] ∷ es) inc exc h = cc
add_entries_gather i e ((c ∷ r) ∷ es) inc exc h = elim (Bool-cases (c == b'~')) [
  | inl tilde ↦ elim (Bool-cases (is_empty r)) [
    | inl bare ↦ absurd (ground arith)
    | inr filled ↦
        let g = add_entries_gather i (e ++ r ∷ []) es inc exc (ground arith) in
        record {
          later_inc = g.later_inc;
          later_exc = r ∷ g.later_exc;
          scoping = excluded c r ((==_iff c b'~').0 tilde) filled g.scoping;
          all_inc = g.all_inc;
          all_exc = g.all_exc ∙ append_assoc e (r ∷ []) g.later_exc;
        }
  ]
  | inr plain ↦
      let g = add_entries_gather (i ++ (c ∷ r) ∷ []) e es inc exc (ground arith) in
      record {
        later_inc = (c ∷ r) ∷ g.later_inc;
        later_exc = g.later_exc;
        scoping = included c r (ground arith) g.scoping;
        all_inc = g.all_inc ∙ append_assoc i ((c ∷ r) ∷ []) g.later_inc;
        all_exc = g.all_exc;
      }
]

Gathered-Scoping : {es inc exc : List Text} → Gathered es [] [] inc exc → Scoping es inc exc
Gathered-Scoping {es} g = subst₂ (Scoping es) (sym g.all_inc) (sym g.all_exc) g.scoping

collect-Scoping : (es inc exc : List Text) → collect es ≡ some (inc, exc) → Scoping es inc exc
unfolding collect non_empty
collect-Scoping es inc exc h = Gathered-Scoping (add_entries_gather [] [] es inc exc (ground arith))

-- The domains of a `$domain=` option are the entries between its bars.
pub split_domains-Scoping :
    (value : Text) (inc exc : List Text)
    → split_domains value ≡ some (inc, exc)
    → Scoping (split b'|' value) inc exc
unfolding split_domains
split_domains-Scoping value inc exc h = collect-Scoping (split b'|' value) inc exc h

-- Those of a cosmetic rule are the stripped entries between its commas.
pub split_cosmetic_domains-Scoping :
    (lhs : Text) (inc exc : List Text)
    → split_cosmetic_domains lhs ≡ some (inc, exc)
    → Scoping (strip_all (split b',' lhs)) inc exc
unfolding split_cosmetic_domains
split_cosmetic_domains-Scoping lhs inc exc h =
    collect-Scoping (strip_all (split b',' lhs)) inc exc h
