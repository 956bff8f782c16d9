-- ===== src/PatchQueue/Paths/Allowed.antt =====
-- `check_path_policy` against a description of the paths that are allowed.
use xr_browser.Prelude.{
  ℕ, ◌==◌, ==_iff, Text, true, false, ◌≡◌, ◌≢◌, ◌↔◌, ◌⊎◌, refl, sym, ◌∙◌, ap, List, [], ◌∷◌, ◌++◌,
  any, All, Some, Bool-cases, inl, inr, text_eq, text_eq_iff, text_mem, starts_with,
  starts_with-append, starts_with_split, split, codes, arith,
}
use xr_browser.PatchQueue.Paths.Stripped.{IsStripped, rstrip_slash_iff}
use xr_browser.PatchQueue.Paths.{escapes, rstrip_slash, in_root, check_path_policy}

-- The path is the root less the slashes at its end, or begins with the text of the root.
abbrev pub IsRooted : Text → Text → Type 0
IsRooted p r = IsStripped r p ⊎ ((rest : Text) × (p ≡ r ++ rest))

-- A relative path without a ".." component, at or behind the text of one of the roots.
pub record IsAllowed (roots : List Text) (p : Text) : Type 0 where
  pub relative : (rest : Text) → p ≢ b'/' ∷ rest
  pub no_parent : All (λ c. c ≢ codes "..") (split b'/' p)
  pub rooted : Some (IsRooted p) roots

text_mem-false_iff : (t : Text) (ts : List Text) → (text_mem t ts ≡ false) ↔ All (λ c. c ≢ t) ts
text_mem-false_iff t [] = (λ e. tt, λ e. refl)
text_mem-false_iff t (c ∷ cs) = (
  λ e. (
    λ s. absurd (ground (arith, (text_eq_iff t c).1 (sym s))),
    (text_mem-false_iff t cs).0 (ground arith),
  ),
  λ n. elim (Bool-cases (text_eq t c)) [
    | inl same ↦ absurd (n.0 (sym ((text_eq_iff t c).0 same)))
    | inr other ↦ rw other ((text_mem-false_iff t cs).1 n.1)
  ],
)

in_root_iff : (p r : Text) → (in_root p r ≡ true) ↔ IsRooted p r
unfolding in_root
in_root_iff p r = (
  λ e. elim (Bool-cases (text_eq p (rstrip_slash r))) [
    | inl same ↦ inl ((rstrip_slash_iff p r).0 ((text_eq_iff p (rstrip_slash r)).0 same))
    | inr other ↦ inr (starts_with_split r p (ground arith))
  ],
  λ b. elim b [
    | inl same ↦ ground (arith, (text_eq_iff p (rstrip_slash r)).1 ((rstrip_slash_iff p r).1 same))
    | inr (rest, e) ↦ ground (arith, ap (starts_with r) e ∙ starts_with-append r rest)
  ],
)

any_iff : (p : Text) (rs : List Text) → (any (in_root p) rs ≡ true) ↔ Some (IsRooted p) rs
any_iff p [] = (λ e. cc, λ e. absurd e)
any_iff p (r ∷ rs) = (
  λ e. elim (Bool-cases (in_root p r)) [
    | inl here ↦ inl ((in_root_iff p r).0 here)
    | inr later ↦ inr ((any_iff p rs).0 (ground arith))
  ],
  λ b. elim b [
    | inl here ↦ ground (arith, (in_root_iff p r).1 here)
    | inr later ↦ ground (arith, (any_iff p rs).1 later)
  ],
)

slash_first : (c : ℕ) (p rest : Text) → c ∷ p ≡ b'/' ∷ rest → (b'/' == c) ≡ true
slash_first c p rest s = let same : c ≡ b'/' = cc s in (==_iff b'/' c).1 (sym same)

relative_iff : (p : Text) → (starts_with (codes "/") p ≡ false) ↔ ((rest : Text) → p ≢ b'/' ∷ rest)
unfolding starts_with
relative_iff [] = (λ e rest s. cc, λ n. refl)
relative_iff (c ∷ p) = (
  λ e rest s. absurd (ground (arith, slash_first c p rest s)),
  λ n. elim (Bool-cases (b'/' == c)) [
    | inl same ↦ absurd (n p (ap (λ x. x ∷ p) (sym ((==_iff b'/' c).0 same))))
    | inr other ↦ rw other refl
  ],
)

IsAllowed-iff :
    (p : Text) (roots : List Text)
    → ((escapes p ≡ false) × (any (in_root p) roots ≡ true)) ↔ IsAllowed roots p
unfolding escapes
IsAllowed-iff p roots = (
  λ (inside, below). record {
    relative = (relative_iff p).0 (ground arith);
    no_parent = (text_mem-false_iff (codes "..") (split b'/' p)).0 (ground arith);
    rooted = (any_iff p roots).0 below;
  },
  λ a. (
    ground (
      arith,
      (relative_iff p).1 a.relative,
      (text_mem-false_iff (codes "..") (split b'/' p)).1 a.no_parent,
    ),
    (any_iff p roots).1 a.rooted,
  ),
)

-- The policy finds nothing wrong exactly if every path is relative, has no ".." component, and is a
-- root less the slashes at its end, or begins with the text of a root: where the root ends in a
-- slash, the path lies below it; where it does not, the path need only be spelled alike.
pub check_path_policy-eq-nil_iff :
    (ps roots : List Text) → (check_path_policy ps roots ≡ []) ↔ All (IsAllowed roots) ps
unfolding check_path_policy
check_path_policy-eq-nil_iff [] roots = (λ e. tt, λ a. refl)
check_path_policy-eq-nil_iff (p ∷ ps) roots = (
  λ e. (
    (IsAllowed-iff p roots).0 (ground arith),
    (check_path_policy-eq-nil_iff ps roots).0 (ground arith),
  ),
  λ a.
      let (inside, below) = (IsAllowed-iff p roots).1 a.0 in
      ground (arith, inside, below, (check_path_policy-eq-nil_iff ps roots).1 a.1),
)
