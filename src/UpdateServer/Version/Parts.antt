-- ===== src/UpdateServer/Version/Parts.antt =====
-- The texts that `parse_part` accepts as one part of a version.
use xr_browser.Prelude.{
  ℕ, zero, suc, ◌+◌, ◌-◌, ◌*◌, ◌≤◌, Text, true, false, ◌≡◌, ◌≢◌, refl, sym, ap, ◌∙◌, ◌&&◌, some, [],
  ◌∷◌, length, is_empty, all, ltb, ◌==◌, decimal, value, value_from, decimal-value, decimal-ne-nil,
  decimal_small-length, decimal-digits, value-decimal, length-decimal, decimal_lead, is_ascii_digit,
  arith,
}
use xr_browser.UpdateServer.Platform.{Platform, KnowsAscii}
use xr_browser.UpdateServer.Version.{Parsed, int_loop, int_of, leads_with_zero, parse_part}

-- A part that starts with "0" and is no longer than one character.
alone : (c : ℕ) (s : Text) → (ltb 1 (length (c ∷ s)) && c == b'0') ≡ false → c ≡ b'0' → s ≡ []
alone c [] h e = refl
alone c (d ∷ s) h e = absurd (ground arith)

is_empty-false : (s : Text) → s ≢ [] → is_empty s ≡ false
is_empty-false [] h = absurd (h refl)
is_empty-false (c ∷ s) h = refl

module _ (p : Platform) (k : KnowsAscii p) where
  int_loop-value :
      (acc : ℕ) (s : Text)
      → all is_ascii_digit s ≡ true
      → int_loop p acc s ≡ some (value_from acc s)
  unfolding int_loop value_from
  int_loop-value acc [] h = refl
  int_loop-value acc (c ∷ s) h =
      rw (k.digit_value c (ground arith), int_loop)
        (int_loop-value (acc * 10 + (c - b'0')) s (ground arith))

  ascii_digits :
      (s : Text)
      → all (λ c. ltb c 128) s ≡ true
      → all p.is_digit s ≡ true
      → all is_ascii_digit s ≡ true
  ascii_digits [] h d = refl
  ascii_digits (c ∷ s) h d = ground (arith, k.is_digit c, ascii_digits s)

  digits_known : (s : Text) → all is_ascii_digit s ≡ true → all p.is_digit s ≡ true
  digits_known [] h = refl
  digits_known (c ∷ s) h = ground (arith, k.is_digit c, digits_known s)

  -- A part that is accepted is the numeral of its value, and the value is in range.
  pub parse_part_sound :
      (part : Text) (n : ℕ)
      → all (λ c. ltb c 128) part ≡ true
      → parse_part p part ≡ Parsed.value n
      → (part ≡ decimal n) × (n ≤ 65535)
  unfolding parse_part int_of leads_with_zero
  parse_part_sound [] n h e = cc
  parse_part_sound (c ∷ s) n h e =
      let digits = ascii_digits (c ∷ s) h (ground arith) in
      let int_value = int_loop-value 0 (c ∷ s) digits in
      let same : value (c ∷ s) ≡ n = ground (arith, int_value) in
      let lead : (ltb 1 (length (c ∷ s)) && c == b'0') ≡ false = ground arith in
      (
        sym (decimal-value (c ∷ s) (digits, alone c s lead)) ∙ ap decimal same,
        ground (arith, int_value),
      )

  not_led : (n : ℕ) → (ltb 1 (length (decimal n)) && leads_with_zero p (decimal n)) ≡ false
  unfolding leads_with_zero
  not_led zero = rw (decimal_small-length 0 (omega arith)) refl
  not_led (suc n) =
      let (c, s, e, nonzero) = decimal_lead (suc n) (omega arith) in rw e (ground arith)

  -- The numeral of a number in range is accepted.
  pub parse_part-decimal : (n : ℕ) → n ≤ 65535 → parse_part p (decimal n) ≡ Parsed.value n
  unfolding parse_part int_of
  parse_part-decimal n h =
      let some_digits = is_empty-false (decimal n) (decimal-ne-nil n) in
      let digits = digits_known (decimal n) (decimal-digits n) in
      let room = k.takes_five (length (decimal n)) (length-decimal 4 n (omega arith)) in
      let int_value = int_loop-value 0 (decimal n) (decimal-digits n) ∙ ap some (value-decimal n) in
      rw (some_digits, digits, not_led n) (rw room (rw int_value (ground arith)))
