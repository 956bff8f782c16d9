-- ===== src/Prelude/SplitLaws.antt =====
-- Laws of `split`, with `str.join` as its inverse.
use Prim.Native.Nat.{ℕ}
use mathlib.Core.Path.{◌≡◌, refl, ap, ◌∙◌}
use mathlib.Core.Logic.{inl, inr}
use mathlib.Core.Bool.{true, false}
use mathlib.Core.List.{List, [], ◌∷◌, ◌++◌, reverse, reverse-cons, append_assoc, append-nil}
use native.Mathlib.Omega.{arith}
use xr_browser.Prelude.Tests.{Bool-cases, ◌==◌, ==_iff}
use xr_browser.Prelude.Texts.{Text, has_char, split, split_from}

module _ (sep : ℕ) where
  joined : List Text → Text
  joined [] = []
  joined (q ∷ qs) = sep ∷ (q ++ joined qs)

  -- sep.join(parts)
  unfoldable pub join : List Text → Text
  unfolding joined
  join [] = []
  join (q ∷ qs) = q ++ joined qs

  split_from-cons : (cur s : Text) → (p : Text) × (ps : List Text) × (split_from sep cur s ≡ p ∷ ps)
  unfolding split_from
  split_from-cons cur [] = (reverse cur, [], refl)
  split_from-cons cur (c ∷ s) = elim (Bool-cases (c == sep)) [
    | inl at_sep ↦ (reverse cur, split_from sep [] s, rw (at_sep, split_from) refl)
    | inr later ↦ rw (later, split_from) (split_from-cons (c ∷ cur) s)
  ]

  joined_of_split : (s : Text) → joined (split_from sep [] s) ≡ sep ∷ join (split_from sep [] s)
  unfolding join
  joined_of_split s = let (p, ps, e) = split_from-cons [] s in rw e refl

  join-split_from : (cur s : Text) → join (split_from sep cur s) ≡ reverse cur ++ s
  unfolding split_from join
  join-split_from cur [] = refl
  join-split_from cur (c ∷ s) = elim (Bool-cases (c == sep)) [
    | inl at_sep ↦
        rw (at_sep, split_from)
          (rw (joined_of_split s) (
            rw ((==_iff c sep).0 at_sep)
              (ap (λ t. reverse cur ++ (sep ∷ t)) (join-split_from [] s))))
    | inr later ↦
        rw (later, split_from) (join-split_from (c ∷ cur) s ∙ rw (reverse-cons, append_assoc) refl)
  ]

  -- Joining the parts gives the text back.
  pub join-split : (s : Text) → join (split sep s) ≡ s
  unfolding split
  join-split s = join-split_from [] s

  split_from_lacking :
      (cur s : Text) → has_char sep s ≡ false → split_from sep cur s ≡ (reverse cur ++ s) ∷ []
  unfolding split_from
  split_from_lacking cur [] h = rw append-nil refl
  split_from_lacking cur (c ∷ s) h =
      let later : (c == sep) ≡ false = ground arith in
      rw (later, split_from)
        (split_from_lacking (c ∷ cur) s (ground arith) ∙ rw (reverse-cons, append_assoc) refl)

  split_from_part :
      (cur s t : Text)
      → has_char sep s ≡ false
      → split_from sep cur (s ++ (sep ∷ t)) ≡ (reverse cur ++ s) ∷ split_from sep [] t
  unfolding split_from
  split_from_part cur [] t h =
      let here : (sep == sep) ≡ true = (==_iff sep sep).1 refl in
      rw (here, split_from) (rw append-nil refl)
  split_from_part cur (c ∷ s) t h =
      let later : (c == sep) ≡ false = ground arith in
      rw (later, split_from)
        (split_from_part (c ∷ cur) s t (ground arith) ∙ rw (reverse-cons, append_assoc) refl)

  pub split_lacking : (s : Text) → has_char sep s ≡ false → split sep s ≡ s ∷ []
  unfolding split
  split_lacking s h = split_from_lacking [] s h

  pub split_part :
      (s t : Text) → has_char sep s ≡ false → split sep (s ++ (sep ∷ t)) ≡ s ∷ split sep t
  unfolding split
  split_part s t h = split_from_part [] s t h
