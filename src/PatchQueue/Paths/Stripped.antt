-- ===== src/PatchQueue/Paths/Stripped.antt =====
-- `rstrip("/")` in build/patching/apply.py, by the slashes that it takes off.
use mathlib.Core.List.{reverse-cons, reverse-append, reverse-reverse}
use xr_browser.Prelude.{
  ◌==◌, ==_iff, Text, ◌≡◌, ◌≢◌, ◌↔◌, refl, sym, ◌∙◌, ap, [], ◌∷◌, ◌++◌, reverse, Bool-cases, inl,
  inr, arith,
}
use xr_browser.PatchQueue.Paths.{drop_slashes, rstrip_slash}

-- The second text is the first and slashes behind it.
pub data Slashed (p : Text) : Text → Type 0 where
  bare : Slashed p p
  slash : {r : Text} → Slashed p r → Slashed p (r ++ (b'/' ∷ []))

-- The root less all of the slashes at its end.
pub record IsStripped (r p : Text) : Type 0 where
  pub slashed : Slashed p r
  pub open_end : (q : Text) → p ≢ q ++ (b'/' ∷ [])

drop_slashes-Slashed : (s : Text) → Slashed (reverse (drop_slashes s)) (reverse s)
unfolding drop_slashes
drop_slashes-Slashed [] = bare
drop_slashes-Slashed (c ∷ s) = elim (Bool-cases (c == b'/')) [
  | inl is ↦ rw (is, (==_iff c b'/').0 is, reverse-cons) (slash (drop_slashes-Slashed s))
  | inr other ↦ rw other bare
]

drop_slashes-ne-slash : (s t : Text) → drop_slashes s ≢ b'/' ∷ t
unfolding drop_slashes
drop_slashes-ne-slash [] t e = cc
drop_slashes-ne-slash (c ∷ s) t e = elim (Bool-cases (c == b'/')) [
  | inl is ↦ drop_slashes-ne-slash s t (rw is at e)
  | inr other ↦
      let first : c ∷ s ≡ b'/' ∷ t = rw other at e in
      let same : c ≡ b'/' = cc first in absurd (ground (arith, (==_iff c b'/').1 same))
]

drop_slashes_none : (s : Text) → ((t : Text) → s ≢ b'/' ∷ t) → drop_slashes s ≡ s
unfolding drop_slashes
drop_slashes_none [] n = refl
drop_slashes_none (c ∷ s) n = elim (Bool-cases (c == b'/')) [
  | inl is ↦ absurd (n s (ap (λ x. x ∷ s) ((==_iff c b'/').0 is)))
  | inr other ↦ rw other refl
]

rstrip_slash-slash : (r : Text) → rstrip_slash (r ++ (b'/' ∷ [])) ≡ rstrip_slash r
unfolding rstrip_slash drop_slashes
rstrip_slash-slash r = rw (reverse-append r (b'/' ∷ [])) refl

rstrip_slash-Slashed : {p r : Text} → Slashed p r → rstrip_slash r ≡ rstrip_slash p
rstrip_slash-Slashed bare = refl
rstrip_slash-Slashed (slash {r} h) = rstrip_slash-slash r ∙ rstrip_slash-Slashed h

rstrip_slash_open : (p : Text) → ((q : Text) → p ≢ q ++ (b'/' ∷ [])) → rstrip_slash p ≡ p
unfolding rstrip_slash
rstrip_slash_open p n =
    ap reverse (
      drop_slashes_none (reverse p)
        (λ t e. n (reverse t) (sym (reverse-reverse p) ∙ ap reverse e ∙ reverse-cons b'/' t)))
    ∙ reverse-reverse p

pub rstrip_slash_iff : (p r : Text) → (p ≡ rstrip_slash r) ↔ IsStripped r p
unfolding rstrip_slash
rstrip_slash_iff p r = (
  λ e. rw e (record {
    slashed = rw (reverse-reverse r) at (drop_slashes-Slashed (reverse r));
    open_end = λ q e1. drop_slashes-ne-slash (reverse r) (reverse q) (
        sym (reverse-reverse (drop_slashes (reverse r)))
        ∙ ap reverse e1
        ∙ reverse-append q (b'/' ∷ []));
  }),
  λ h. sym (rstrip_slash-Slashed h.slashed ∙ rstrip_slash_open p h.open_end),
)
