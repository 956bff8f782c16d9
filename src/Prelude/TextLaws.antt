-- ===== src/Prelude/TextLaws.antt =====
-- Laws of the `str` methods in Prelude/Texts.antt.
use Prim.Native.Nat.{ℕ}
use mathlib.Core.Path.{◌≡◌, refl, sym, ap, ◌∙◌}
use mathlib.Core.Logic.{◌⊎◌, inl, inr}
use mathlib.Core.Bool.{true, false}
use mathlib.Core.List.{[], ◌∷◌, ◌++◌, reverse, reverse-cons, reverse-append, reverse-reverse}
use native.Mathlib.Omega.{arith}
use xr_browser.Prelude.Tests.{Bool-cases}
use xr_browser.Prelude.Lists.{any-append}
use xr_browser.Prelude.Texts.{Text, has_char, is_space, starts_with, ends_with, lstrip, strip}

pub starts_with-append : (p r : Text) → starts_with p (p ++ r) ≡ true
unfolding starts_with
starts_with-append [] r = refl
starts_with-append (c ∷ p) r = ground (arith, starts_with-append p r)

pub starts_with_split : (p s : Text) → starts_with p s ≡ true → (r : Text) × (s ≡ p ++ r)
unfolding starts_with
starts_with_split [] s h = (s, refl)
starts_with_split (c ∷ p) [] h = cc
starts_with_split (c ∷ p) (d ∷ s) h =
    let (r, e) = starts_with_split p s (ground arith) in
    let same : c ≡ d = ground arith in (r, cc (same, e))

pub ends_with_split : (p s : Text) → ends_with p s ≡ true → (r : Text) × (s ≡ r ++ p)
unfolding ends_with
ends_with_split p s h =
    let (r, e) = starts_with_split (reverse p) (reverse s) h in
    (reverse r, sym (reverse-reverse s) ∙ ap reverse e ∙ simp (reverse-append, reverse-reverse))

pub ends_with-append : (p r : Text) → ends_with p (r ++ p) ≡ true
unfolding ends_with
ends_with-append p r = rw reverse-append (starts_with-append (reverse p) (reverse r))

pub has_char-reverse : (c : ℕ) (s : Text) → has_char c (reverse s) ≡ has_char c s
has_char-reverse c [] = refl
has_char-reverse c (d ∷ s) = rw (reverse-cons, any-append) (ground (arith, has_char-reverse c s))

-- What a trailing character would show is not there.
pub ends_with_lacking : (c : ℕ) (s : Text) → has_char c s ≡ false → ends_with (c ∷ []) s ≡ false
ends_with_lacking c s h = elim (Bool-cases (ends_with (c ∷ []) s)) [
  | inl yes_ends ↦
      let (r, e) = ends_with_split (c ∷ []) s yes_ends in
      let found : has_char c s ≡ true = rw e (rw any-append (ground arith)) in cc
  | inr not_ends ↦ not_ends
]

lstrip-append : (c : ℕ) (s : Text) → is_space c ≡ false → lstrip (s ++ c ∷ []) ≡ lstrip s ++ c ∷ []
unfolding lstrip
lstrip-append c [] h = rw h
lstrip-append c (d ∷ s) h = elim (Bool-cases (is_space d)) [
  | inl blank ↦ rw blank (lstrip-append c s h)
  | inr solid ↦ rw solid
]

lstrip_idem : (s : Text) → lstrip (lstrip s) ≡ lstrip s
unfolding lstrip
lstrip_idem [] = refl
lstrip_idem (d ∷ s) = ground (arith, lstrip_idem s)

lstrip_cases :
    (s : Text)
    → (lstrip s ≡ []) ⊎ ((c : ℕ) × (t : Text) × (lstrip s ≡ c ∷ t) × (is_space c ≡ false))
unfolding lstrip
lstrip_cases [] = inl refl
lstrip_cases (d ∷ s) = elim (Bool-cases (is_space d)) [
  | inl blank ↦ rw blank (lstrip_cases s)
  | inr solid ↦ rw solid (inr (d, s, refl, solid))
]

strip_solid :
    (c : ℕ) (t : Text)
    → is_space c ≡ false
    → reverse (lstrip (reverse (c ∷ t))) ≡ c ∷ reverse (lstrip (reverse t))
strip_solid c t h = simp (reverse-cons, lstrip-append c (reverse t) h, reverse-append)

strip_kept :
    (c : ℕ) (t : Text) → is_space c ≡ false → strip (c ∷ t) ≡ c ∷ reverse (lstrip (reverse t))
unfolding strip
strip_kept c t h = unfold lstrip in rw h (strip_solid c t h)

-- Stripping a stripped text changes nothing.
pub strip_idem : (s : Text) → strip (strip s) ≡ strip s
unfolding strip
strip_idem s = elim (lstrip_cases s) [
  | inl gone ↦ rw gone (unfold lstrip in refl)
  | inr (c, t, kept, solid) ↦
      rw (kept, strip_solid c t solid)
        (strip_kept c (reverse (lstrip (reverse t))) solid ∙ simp (reverse-reverse, lstrip_idem))
]
