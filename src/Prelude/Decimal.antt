-- ===== src/Prelude/Decimal.antt =====
-- Decimal numerals: `str(n)` of a number that is not negative, and `int(s)` of ASCII digits.
use Prim.Native.Nat.{ℕ, zero, suc, ◌+◌, ◌-◌, ◌*◌, ◌/◌, ◌%◌, ◌≤◌, ◌<◌}
use mathlib.Core.Path.{◌≡◌, refl, sym, ap, ◌∙◌}
use mathlib.Core.Bool.{Bool, true, false, ◌&&◌}
use mathlib.Core.Logic.{◌≢◌, inl, inr}
use mathlib.Core.List.{[], ◌∷◌, ◌++◌, append_assoc, append-nil, concat-ne-nil}
use native.Mathlib.Omega.{arith}
use xr_browser.Prelude.Tests.{Bool-cases, ltb→lt, lt→ltb, ltb, leb, ◌==◌, if◌then◌else◌}
use xr_browser.Prelude.Lists.{length, length-append, replicate, all, all-append}
use xr_browser.Prelude.Texts.{Text}

-- One digit for each unit of fuel; a number has fewer digits than itself and one.
decimal_fuel : ℕ → ℕ → Text
decimal_fuel zero n = []
decimal_fuel (suc f) n =
    let high = decimal_fuel f (n / 10) in (if ltb n 10 then [] else high) ++ (b'0' + n % 10) ∷ []

unfoldable pub decimal : ℕ → Text
unfolding decimal_fuel
decimal n = decimal_fuel (suc n) n

unfoldable pub value_from : ℕ → Text → ℕ
value_from acc [] = acc
value_from acc (c ∷ s) = value_from (acc * 10 + (c - b'0')) s

-- int(s)
abbrev pub value : Text → ℕ
value s = value_from 0 s

abbrev pub is_ascii_digit : ℕ → Bool
is_ascii_digit c = leb b'0' c && leb c b'9'

value_from-append :
    (acc : ℕ) (s : Text) (c : ℕ) → value_from acc (s ++ c ∷ []) ≡ value_from acc s * 10 + (c - b'0')
unfolding value_from
value_from-append acc [] c = refl
value_from-append acc (d ∷ s) c = value_from-append (acc * 10 + (d - b'0')) s c

value-decimal_fuel : (f n : ℕ) → n < f → value (decimal_fuel f n) ≡ n
unfolding decimal_fuel
value-decimal_fuel zero n h = elim h [ ]
value-decimal_fuel (suc f) n h = elim (Bool-cases (ltb n 10)) [
  | inl small ↦ rw small (unfold value_from in ground arith)
  | inr big ↦
      rw big (rw value_from-append (omega (arith, value-decimal_fuel f (n / 10) (ground arith))))
]

pub value-decimal : (n : ℕ) → value (decimal n) ≡ n
unfolding decimal
value-decimal n = value-decimal_fuel (suc n) n (omega arith)

-- Two numbers with one numeral are one.
pub decimal-injective : (m n : ℕ) → decimal m ≡ decimal n → m ≡ n
decimal-injective m n e = sym (value-decimal m) ∙ ap value e ∙ value-decimal n

decimal_fuel_enough : (f g n : ℕ) → n < f → n < g → decimal_fuel f n ≡ decimal_fuel g n
unfolding decimal_fuel
decimal_fuel_enough zero g n h k = elim h [ ]
decimal_fuel_enough (suc f) zero n h k = elim k [ ]
decimal_fuel_enough (suc f) (suc g) n h k = ground (arith, decimal_fuel_enough f g (n / 10))

decimal_big : (n : ℕ) → 10 ≤ n → decimal n ≡ decimal (n / 10) ++ (b'0' + n % 10) ∷ []
unfolding decimal
decimal_big n h =
    let several : ltb n 10 ≡ false = ground arith in
    rw several (rw (decimal_fuel_enough n (suc (n / 10)) (n / 10) (omega arith) (omega arith)) refl)

decimal_step : (a d : ℕ) → 0 < a → d < 10 → decimal (a * 10 + d) ≡ decimal a ++ (b'0' + d) ∷ []
decimal_step a d h k =
    let tens : (a * 10 + d) / 10 ≡ a = omega arith in
    let units : (a * 10 + d) % 10 ≡ d = omega arith in
    decimal_big (a * 10 + d) (omega arith) ∙ rw (tens, units) refl

decimal_digit : (d : ℕ) → d < 10 → decimal d ≡ (b'0' + d) ∷ []
unfolding decimal
decimal_digit d h = let units : d % 10 ≡ d = omega arith in rw (lt→ltb d 10 h, units) refl

decimal-value_from :
    (acc : ℕ) (s : Text)
    → 0 < acc
    → all is_ascii_digit s ≡ true
    → decimal (value_from acc s) ≡ decimal acc ++ s
unfolding value_from
decimal-value_from acc [] h k = sym (append-nil (decimal acc))
decimal-value_from acc (c ∷ s) h k =
    let digit : b'0' + (c - b'0') ≡ c = ground arith in
    let small : c - b'0' < 10 = ground arith in
    decimal-value_from (acc * 10 + (c - b'0')) s (omega arith) (ground arith)
    ∙ ap (λ t. t ++ s) (decimal_step acc (c - b'0') h small)
    ∙ append_assoc (decimal acc) ((b'0' + (c - b'0')) ∷ []) s
    ∙ ap (λ t. decimal acc ++ (t ∷ s)) digit

-- A numeral without a leading zero, or "0" itself.
abbrev pub IsNumeral : Text → Type 0
IsNumeral [] = ⊥
IsNumeral (c ∷ s) = (all is_ascii_digit (c ∷ s) ≡ true) × ((c ≡ b'0') → s ≡ [])

-- Such a text is the numeral of its value.
pub decimal-value : (s : Text) → IsNumeral s → decimal (value s) ≡ s
decimal-value [] h = absurd h
decimal-value (c ∷ s) (digits, lead) = elim (Bool-cases (c == b'0')) [
  | inl zero_first ↦
      let e : c ≡ b'0' = ground arith in
      rw (lead e, e) (unfold value_from in decimal_digit 0 (omega arith))
  | inr nonzero ↦
      let digit : b'0' + (c - b'0') ≡ c = ground arith in
      unfold value_from in
      (decimal-value_from (0 * 10 + (c - b'0')) s (ground arith) (ground arith)
        ∙ ap (λ t. t ++ s) (decimal_digit (0 * 10 + (c - b'0')) (ground arith))
        ∙ ap (λ t. t ∷ s) (omega arith))
]

decimal_fuel-digits : (f n : ℕ) → all is_ascii_digit (decimal_fuel f n) ≡ true
unfolding decimal_fuel
decimal_fuel-digits zero n = refl
decimal_fuel-digits (suc f) n = ground (
  arith,
  decimal_fuel-digits f (n / 10),
  all-append is_ascii_digit (decimal_fuel f (n / 10)) ((b'0' + n % 10) ∷ []),
)

pub decimal-digits : (n : ℕ) → all is_ascii_digit (decimal n) ≡ true
unfolding decimal
decimal-digits n = decimal_fuel-digits (suc n) n

pub decimal-ne-nil : (n : ℕ) → decimal n ≢ []
unfolding decimal
decimal-ne-nil n = elim (Bool-cases (ltb n 10)) [
  | inl small ↦ rw small (λ e. cc)
  | inr big ↦ rw big (concat-ne-nil (b'0' + n % 10) (decimal_fuel n (n / 10)))
]

-- Zeros in front do not count.
pub value_from_zeros : (n : ℕ) (s : Text) → value (replicate n b'0' ++ s) ≡ value s
unfolding value_from
value_from_zeros zero s = refl
value_from_zeros (suc n) s = value_from_zeros n s

pub decimal_small-length : (n : ℕ) → n < 10 → length (decimal n) ≡ 1
decimal_small-length n h = rw (decimal_digit n h) refl

-- The powers of ten.
abbrev pub tens : ℕ → ℕ
tens zero = 1
tens (suc k) = 10 * tens k

length-decimal_big : (n : ℕ) → 10 ≤ n → length (decimal n) ≡ length (decimal (n / 10)) + 1
length-decimal_big n h =
    ap length (decimal_big n h) ∙ length-append (decimal (n / 10)) ((b'0' + n % 10) ∷ [])

pub length-decimal : (k n : ℕ) → n < 10 * tens k → length (decimal n) ≤ k + 1
length-decimal zero n h = omega (arith, decimal_small-length n (omega arith))
length-decimal (suc k) n h = elim (Bool-cases (ltb n 10)) [
  | inl small ↦ omega (arith, decimal_small-length n (ground arith))
  | inr big ↦
      omega (arith, length-decimal_big n (ground arith), length-decimal k (n / 10) (omega arith))
]

decimal_fuel_lead :
    (f n : ℕ) → n < f → 0 < n → (c : ℕ) × (s : Text) × (decimal_fuel f n ≡ c ∷ s) × (c ≢ b'0')
unfolding decimal_fuel
decimal_fuel_lead zero n h k = elim h [ ]
decimal_fuel_lead (suc f) n h k = elim (Bool-cases (ltb n 10)) [
  | inl small ↦ (b'0' + n % 10, [], rw small refl, omega (arith, ltb→lt n 10 small))
  | inr big ↦
      let (c, s, e, nonzero) = decimal_fuel_lead f (n / 10) (omega arith) (ground arith) in
      (c, s ++ (b'0' + n % 10) ∷ [], rw big (rw e refl), nonzero)
]

-- The numeral of a positive number does not start with "0".
pub decimal_lead : (n : ℕ) → 0 < n → (c : ℕ) × (s : Text) × (decimal n ≡ c ∷ s) × (c ≢ b'0')
unfolding decimal
decimal_lead n h = decimal_fuel_lead (suc n) n (omega arith) h

-- An integer of Python: `plus n`, or `minus n` for -(n + 1).
pub data Whole : Type 0 where
  plus minus : ℕ → Whole

-- str(n)
unfoldable pub whole_text : Whole → Text
whole_text (plus n) = decimal n
whole_text (minus n) = b'-' ∷ decimal (suc n)
