-- ===== src/UpdateServer/Version.antt =====
-- `parse_version` of update_server_ref.py, and the order of version tuples.
pub mod Parts
pub mod Canonical
pub mod Total
use xr_browser.Prelude.{
  ℕ, ◌+◌, ◌*◌, Text, Bool, false, ◌&&◌, ◌||◌, not, ◌≡◌, refl, Option, none, some, List, [], ◌∷◌,
  length, is_empty, all, ltb, ◌==◌, split, if◌then◌else◌,
}
use xr_browser.UpdateServer.Platform.{Platform, takes_digits}

-- `parse_version` returns a tuple or None, or `int` raises.
pub data Parsed {ℓ} (A : Type ℓ) : Type ℓ where
  value : A → Parsed A
  refused : Parsed A
  raised : Parsed A

infixl 5 ◌>>=◌
abbrev pub ◌>>=◌ {ℓ κ} : {A : Type ℓ} {B : Type κ} → Parsed A → (A → Parsed B) → Parsed B
value a >>= f = f a
refused >>= f = refused
raised >>= f = raised

-- A tuple of four components, the most significant first.
pub record Version : Type 0 where
  pub major : ℕ
  pub minor : ℕ
  pub build : ℕ
  pub patch : ℕ

-- The comparison of tuples, `a < b`.
unfoldable pub version_lt : Version → Version → Bool
version_lt a b =
    ltb a.major b.major
    || (a.major == b.major
        && (ltb a.minor b.minor
            || (a.minor == b.minor
                && (ltb a.build b.build || (a.build == b.build && ltb a.patch b.patch)))))

module _ (p : Platform) where
  int_loop : ℕ → Text → Option ℕ
  int_loop acc [] = some acc
  int_loop acc (c ∷ s) = elim (p.digit_value c) [ none ↦ none | some d ↦ int_loop (acc * 10 + d) s ]

  -- int(part), for a part that is not empty
  unfoldable pub int_of : Text → Option ℕ
  unfolding int_loop
  int_of part = if takes_digits p (length part) then int_loop 0 part else none

  -- p[0] == "0"
  leads_with_zero : Text → Bool
  leads_with_zero [] = false
  leads_with_zero (c ∷ s) = c == b'0'

  -- One round of the loop over the parts.
  unfoldable pub parse_part : Text → Parsed ℕ
  unfolding leads_with_zero
  parse_part part =
      if not (not (is_empty part) && all p.is_digit part)
        || (ltb 1 (length part) && leads_with_zero part)
      then refused
      else elim (int_of part) [ none ↦ raised | some n ↦ if ltb 65535 n then refused else value n ]

  parse_parts : List Text → Parsed Version
  parse_parts (a ∷ b ∷ c ∷ d ∷ []) = do
    major ← parse_part a
    minor ← parse_part b
    build ← parse_part c
    patch ← parse_part d
    value (record { major = major; minor = minor; build = build; patch = patch })
  parse_parts _ = refused

  unfoldable pub parse_version : Text → Parsed Version
  unfolding parse_parts
  parse_version v = parse_parts (split b'.' v)
