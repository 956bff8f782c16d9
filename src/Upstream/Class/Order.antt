-- ===== src/Upstream/Class/Order.antt =====
-- The worst class of a patch's files, and the verdict that it leads to.
use mathlib.Core.Path.{subst}
use xr_browser.Prelude.{
  ℕ, ◌≤◌, true, false, ◌≡◌, refl, sym, ap, ◌∙◌, ◌⊎◌, List, [], ◌∷◌, any, map, All, All-map, arith,
  Bool-cases, inl, inr, ◌↔◌,
}
use xr_browser.Upstream.Class.{
  Class, clean, drift, semantic, moved, deleted, stale_base, path_collision, class_eq, first_in,
  worst, severity, green, is_broken, is_drift, verdict_of,
}

-- How bad a class is; the worst is 0.
pub rank : Class → ℕ
rank stale_base = 0
rank semantic = 1
rank path_collision = 2
rank deleted = 3
rank moved = 4
rank drift = 5
rank clean = 6

class_eq_refl : (c : Class) → class_eq c c ≡ true
unfolding class_eq
class_eq_refl clean = refl
class_eq_refl drift = refl
class_eq_refl semantic = refl
class_eq_refl moved = refl
class_eq_refl deleted = refl
class_eq_refl stale_base = refl
class_eq_refl path_collision = refl

class_eq-clean : (c : Class) → class_eq c clean ≡ true → c ≡ clean
unfolding class_eq
class_eq-clean clean h = refl
class_eq-clean drift h = cc
class_eq-clean semantic h = cc
class_eq-clean moved h = cc
class_eq-clean deleted h = cc
class_eq-clean stale_base h = cc
class_eq-clean path_collision h = cc

quiet_class : (c : Class) → is_broken c ≡ false → is_drift c ≡ false → c ≡ clean
quiet_class clean h k = refl
quiet_class drift h k = cc
quiet_class semantic h k = cc
quiet_class moved h k = cc
quiet_class deleted h k = cc
quiet_class stale_base h k = cc
quiet_class path_collision h k = cc

rank-clean : (c : Class) → rank clean ≤ rank c → c ≡ clean
unfolding rank
rank-clean clean h = refl
rank-clean drift h = absurd (omega arith)
rank-clean semantic h = absurd (omega arith)
rank-clean moved h = absurd (omega arith)
rank-clean deleted h = absurd (omega arith)
rank-clean stale_base h = absurd (omega arith)
rank-clean path_collision h = absurd (omega arith)

rank-worst :
    (classes : List Class) (c : Class)
    → any (class_eq c) classes ≡ true
    → rank (worst classes) ≤ rank c
unfolding worst first_in rank
rank-worst classes clean h = ground arith
rank-worst classes drift h = ground arith
rank-worst classes semantic h = ground arith
rank-worst classes moved h = ground arith
rank-worst classes deleted h = ground arith
rank-worst classes stale_base h = ground arith
rank-worst classes path_collision h = ground arith

first_in_cases :
    (ks classes : List Class)
    → (first_in ks classes ≡ clean) ⊎ (any (class_eq (first_in ks classes)) classes ≡ true)
unfolding first_in
first_in_cases [] classes = inl refl
first_in_cases (k ∷ ks) classes = elim (Bool-cases (any (class_eq k) classes)) [
  | inl there ↦ rw there (inr there)
  | inr absent ↦ rw absent (first_in_cases ks classes)
]

All-any :
    (P : Class → Type 0) (cs : List Class)
    → ((c : Class) → any (class_eq c) cs ≡ true → P c)
    → All P cs
All-any P [] h = tt
All-any P (c ∷ cs) h =
    (h c (ground (arith, class_eq_refl c)), All-any P cs (λ d k. h d (ground arith)))

-- The class of a patch is at least as bad as that of each of its files, and it is the class of one
-- of them, or clean.
pub worst-rank :
    (classes : List Class)
    → All (λ c. rank (worst classes) ≤ rank c) classes
      × ((worst classes ≡ clean) ⊎ (any (class_eq (worst classes)) classes ≡ true))
unfolding worst
worst-rank classes = (
  All-any (λ c. rank (worst classes) ≤ rank c) classes (rank-worst classes),
  first_in_cases severity classes,
)

any-clean :
    (k : Class) (cs : List Class) → All (λ c. c ≡ clean) cs → any (class_eq k) cs ≡ true → k ≡ clean
any-clean k [] a h = cc
any-clean k (c ∷ cs) a h = elim (Bool-cases (class_eq k c)) [
  | inl same ↦ class_eq-clean k (ap (class_eq k) (sym a.0) ∙ same)
  | inr other ↦ any-clean k cs a.1 (ground arith)
]

pub worst-clean_iff : (cs : List Class) → (worst cs ≡ clean) ↔ All (λ c. c ≡ clean) cs
worst-clean_iff cs =
    let (bound, source) = worst-rank cs in
    (
      λ e. All-map cs (λ c h. rank-clean c (subst (λ w. rank w ≤ rank c) e h)) bound,
      λ a. elim source [ inl e ↦ e | inr there ↦ any-clean (worst cs) cs a there ],
    )

quiet_iff :
    (cs : List Class)
    → ((any is_broken cs ≡ false) × (any is_drift cs ≡ false)) ↔ All (λ c. c ≡ clean) cs
quiet_iff [] = (λ e. tt, λ a. (refl, refl))
quiet_iff (c ∷ cs) = (
  λ (b, d).
      (quiet_class c (ground arith) (ground arith), (quiet_iff cs).0 (ground arith, ground arith)),
  λ a.
      let (b, d) = (quiet_iff cs).1 a.1 in
      let own_b : is_broken c ≡ false = ap is_broken a.0 in
      let own_d : is_drift c ≡ false = ap is_drift a.0 in
      (ground (arith, b, own_b), ground (arith, d, own_d)),
)

verdict_quiet_iff :
    (cs : List Class)
    → (verdict_of cs ≡ green) ↔ ((any is_broken cs ≡ false) × (any is_drift cs ≡ false))
unfolding verdict_of
verdict_quiet_iff cs = (λ e. (ground arith, ground arith), λ (b, d). ground (arith, b, d))

files_clean_iff :
    (patches : List (List Class))
    → All (λ c. c ≡ clean) (map worst patches) ↔ All (All (λ c. c ≡ clean)) patches
files_clean_iff [] = (λ a. tt, λ a. tt)
files_clean_iff (cs ∷ patches) = (
  λ a. ((worst-clean_iff cs).0 a.0, (files_clean_iff patches).0 a.1),
  λ a. ((worst-clean_iff cs).1 a.0, (files_clean_iff patches).1 a.1),
)

-- Where each patch has the worst class of its files, the verdict is green exactly if every file of
-- every patch is clean.
pub verdict_of-green_iff :
    (patches : List (List Class))
    → (verdict_of (map worst patches) ≡ green) ↔ All (All (λ c. c ≡ clean)) patches
verdict_of-green_iff patches = (
  λ e.
      (files_clean_iff patches).0
        ((quiet_iff (map worst patches)).0 ((verdict_quiet_iff (map worst patches)).0 e)),
  λ a.
      (verdict_quiet_iff (map worst patches)).1
        ((quiet_iff (map worst patches)).1 ((files_clean_iff patches).1 a)),
)
