-- ===== src/UpdateServer/Platform.antt =====
-- What `handle` takes from Python's standard library and runtime and does not implement: the UTF-8
-- decoder, the JSON parser, `repr`, SHA-256 and the Unicode database behind `isdigit` and `int`.
use xr_browser.Prelude.{
  ℕ, Text, Bool, true, ◌≡◌, ◌-◌, ◌≤◌, Option, none, some, List, ◌<◌, leb, is_ascii_digit,
}
use xr_browser.Json.{Json}

pub record Platform : Type 0 where
  -- frame.decode("utf-8", errors="replace")
  pub decode : List ℕ → Text
  -- json.loads(body); `none` is an exception
  pub loads : Text → Option Json
  -- repr of a parsed value or of None
  pub repr : Option Json → Text
  -- hashlib.sha256(text.encode()).hexdigest()
  pub sha256_hex : Text → Text
  -- c.isdigit()
  pub is_digit : ℕ → Bool
  -- The value of a decimal digit in int(…); `none` raises ValueError.
  pub digit_value : ℕ → Option ℕ
  -- int(…) raises ValueError on a text of more digits; `none` is no limit.
  pub max_str_digits : Option ℕ

-- Whether int(…) takes a text of `n` digits.
unfoldable pub takes_digits : Platform → ℕ → Bool
takes_digits p n = elim p.max_str_digits [ none ↦ true | some most ↦ leb n most ]

-- On ASCII the Unicode database knows the ten digits, and int(…) takes five of them.
pub record KnowsAscii (p : Platform) : Type 0 where
  pub is_digit : (c : ℕ) → c < 128 → p.is_digit c ≡ is_ascii_digit c
  pub digit_value : (c : ℕ) → is_ascii_digit c ≡ true → p.digit_value c ≡ some (c - b'0')
  pub takes_five : (n : ℕ) → n ≤ 5 → takes_digits p n ≡ true
