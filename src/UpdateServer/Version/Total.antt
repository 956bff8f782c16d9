-- ===== src/UpdateServer/Version/Total.antt =====
-- The exceptions of `parse_version`.
use xr_browser.Prelude.{
  All, Bool-cases, split_from, ℕ, ◌+◌, ◌*◌, Text, true, false, ◌≡◌, ◌≢◌, refl, none, List, [], ◌∷◌,
  ◌++◌, length, all, split, split_part, split_lacking, has_char, arith, Option-cases, inl, inr,
}
use xr_browser.UpdateServer.Platform.{Platform, takes_digits}
use xr_browser.UpdateServer.Version.{
  Parsed, int_loop, int_of, parse_part, parse_parts, parse_version, leads_with_zero,
}

-- What int(…) reads of a part: if isdigit accepts the part, its characters are decimal digits, and no
-- more of them than int(…) takes.
pub record IsReadablePart (p : Platform) (part : Text) : Type 0 where
  pub decimal : all p.is_digit part ≡ true → All (λ c. p.digit_value c ≢ none) part
  pub bounded : all p.is_digit part ≡ true → takes_digits p (length part) ≡ true

abbrev pub IsReadable : Platform → Text → Type 0
IsReadable p t = All (IsReadablePart p) (split b'.' t)

module _ (p : Platform) where
  int_loop-ne-none :
      (acc : ℕ) (s : Text) → All (λ c. p.digit_value c ≢ none) s → int_loop p acc s ≢ none
  unfolding int_loop
  int_loop-ne-none acc [] h = λ e. cc
  int_loop-ne-none acc (c ∷ s) h = elim (Option-cases (p.digit_value c)) [
    | inl bad ↦ absurd (h.0 bad)
    | inr (d, good) ↦ rw (good, int_loop) (int_loop-ne-none (acc * 10 + d) s h.1)
  ]

  parse_part-ne-raised : (part : Text) → IsReadablePart p part → parse_part p part ≢ Parsed.raised
  unfolding parse_part int_of
  parse_part-ne-raised part h = elim (Bool-cases (all p.is_digit part)) [
    | inl digits ↦
        ground (arith, digits, int_loop-ne-none 0 part (h.decimal digits), h.bounded digits)
    | inr other ↦ rw other (ground arith)
  ]

  parse_parts-ne-raised :
      (parts : List Text) → All (IsReadablePart p) parts → parse_parts p parts ≢ Parsed.raised
  unfolding parse_parts
  parse_parts-ne-raised (a ∷ b ∷ c ∷ d ∷ []) h = ground (
    arith,
    parse_part-ne-raised a h.0,
    parse_part-ne-raised b h.1.0,
    parse_part-ne-raised c h.1.1.0,
    parse_part-ne-raised d h.1.1.1.0,
  )
  parse_parts-ne-raised (a ∷ b ∷ c ∷ d ∷ x ∷ parts) h = λ e. cc
  parse_parts-ne-raised [] h = λ e. cc
  parse_parts-ne-raised (a ∷ []) h = λ e. cc
  parse_parts-ne-raised (a ∷ b ∷ []) h = λ e. cc
  parse_parts-ne-raised (a ∷ b ∷ c ∷ []) h = λ e. cc

  -- `parse_version` returns a version or None for every text that can be read.
  pub parse_version-ne-raised : (t : Text) → IsReadable p t → parse_version p t ≢ Parsed.raised
  unfolding parse_version
  parse_version-ne-raised t h = parse_parts-ne-raised (split b'.' t) h

  -- An absent version is the empty text.
  pub parse_version-empty : parse_version p [] ≢ Parsed.raised
  unfolding parse_version parse_parts split split_from
  parse_version-empty = λ e. cc

parse_part-unread :
    (p : Platform) (c : ℕ)
    → p.is_digit c ≡ true
    → p.digit_value c ≡ none
    → parse_part p (c ∷ []) ≡ Parsed.raised
unfolding parse_part int_of int_loop leads_with_zero
parse_part-unread p c digit unread = ground arith

-- A version whose first part is a single character that isdigit accepts and int(…) does not read
-- raises, whatever the other three parts are.
pub parse_version-eq-raised :
    (p : Platform) (c : ℕ) (b d e : Text)
    → p.is_digit c ≡ true
    → p.digit_value c ≡ none
    → has_char b'.' (c ∷ []) ≡ false
    → has_char b'.' b ≡ false
    → has_char b'.' d ≡ false
    → has_char b'.' e ≡ false
    → parse_version p ((c ∷ []) ++ (b'.' ∷ (b ++ (b'.' ∷ (d ++ (b'.' ∷ e)))))) ≡ Parsed.raised
unfolding parse_version parse_parts
parse_version-eq-raised p c b d e digit unread hc hb hd he =
    rw
      (
        split_part b'.' (c ∷ []) (b ++ (b'.' ∷ (d ++ (b'.' ∷ e)))) hc,
        split_part b'.' b (d ++ (b'.' ∷ e)) hb,
        split_part b'.' d e hd,
        split_lacking b'.' e he,
        parse_parts,
        parse_part-unread p c digit unread,
      )
      refl
