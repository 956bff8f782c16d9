-- ===== src/Json.antt =====
-- JSON values, and `canonical`: json.dumps with sorted keys, no spaces and ASCII output.
pub mod Ascii
mod Tests
use xr_browser.Prelude.{
  ℕ, zero, suc, ◌+◌, ◌-◌, ◌*◌, ◌/◌, ◌%◌, Text, Bool, true, false, ◌&&◌, ◌||◌, Option, none, some,
  List, [], ◌∷◌, ◌++◌, map, ltb, leb, ◌==◌, text_eq, decimal, codes, if◌then◌else◌,
}

mutual
  -- A number is an integer, `int n` or `neg n` for -(n + 1), or a float, held as it is printed.
  pub data Json : Type 0 where
    null : Json
    bool : Bool → Json
    int : ℕ → Json
    neg : ℕ → Json
    float : Text → Json
    str : Text → Json
    arr : Items → Json
    obj : Fields → Json

  pub data Items : Type 0 where
    nil : Items
    cons : Json → Items → Items

  pub data Fields : Type 0 where
    end : Fields
    field : Text → Json → Fields → Fields

abbrev pub items : Items → List Json
items nil = []
items (cons v vs) = v ∷ items vs

abbrev pub arr_of : List Json → Items
arr_of [] = nil
arr_of (v ∷ vs) = cons v (arr_of vs)

abbrev pub keys : Fields → List Text
keys end = []
keys (field k v fs) = k ∷ keys fs

-- d.get(k): a parsed object has each key once.
unfoldable pub get : Text → Fields → Option Json
get k end = none
get k (field j v fs) = if text_eq j k then some v else get k fs

-- One hexadecimal digit.
hex_digit : ℕ → ℕ
hex_digit n = if ltb n 10 then b'0' + n else b'a' + (n - 10)

-- "\\u{:04x}"
unicode_escape : ℕ → Text
unicode_escape n =
    b'\\'
    ∷ b'u'
    ∷ hex_digit (n / 4096 % 16)
    ∷ hex_digit (n / 256 % 16)
    ∷ hex_digit (n / 16 % 16)
    ∷ hex_digit (n % 16)
    ∷ []

-- A character beyond 0xffff is written as two surrogates.
escape_wide : ℕ → Text
escape_wide c =
    if ltb c 0x10000
    then unicode_escape c
    else unicode_escape (0xd800 + (c - 0x10000) / 1024 % 1024)
      ++ unicode_escape (0xdc00 + (c - 0x10000) % 1024)

escape_char : ℕ → Text
escape_char c =
    if c == b'"'
    then b'\\' ∷ b'"' ∷ []
    else if c == b'\\'
    then b'\\' ∷ b'\\' ∷ []
    else if leb 32 c && leb c 126
    then c ∷ []
    else if c == 8
    then codes "\\b"
    else if c == 9
    then codes "\\t"
    else if c == 10
    then codes "\\n"
    else if c == 12
    then codes "\\f"
    else if c == 13
    then codes "\\r"
    else escape_wide c

escape : Text → Text
escape [] = []
escape (c ∷ s) = escape_char c ++ escape s

quoted : Text → Text
quoted s = b'"' ∷ (escape s ++ b'"' ∷ [])

-- The order of `str`: by code points.
unfoldable pub text_le : Text → Text → Bool
text_le [] t = true
text_le (c ∷ s) [] = false
text_le (c ∷ s) (d ∷ t) = ltb c d || (c == d && text_le s t)

insert_key : Text × Text → List (Text × Text) → List (Text × Text)
insert_key (k, v) [] = (k, v) ∷ []
insert_key (k, v) ((j, w) ∷ fs) =
    if text_le k j then (k, v) ∷ (j, w) ∷ fs else (j, w) ∷ insert_key (k, v) fs

-- Sorted by key; the second parts are printed values.
sort_keys : List (Text × Text) → List (Text × Text)
sort_keys [] = []
sort_keys (f ∷ fs) = insert_key f (sort_keys fs)

-- ",".join(parts)
unfoldable pub commas : List Text → Text
commas [] = []
commas (p ∷ []) = p
commas (p ∷ q ∷ ps) = p ++ (b',' ∷ commas (q ∷ ps))

printed_field : Text × Text → Text
printed_field (k, v) = quoted k ++ (b':' ∷ v)

unfoldable mutual
  unfolding commas printed_field sort_keys insert_key text_le quoted escape escape_char escape_wide
      unicode_escape hex_digit

  pub canonical : Json → Text
  canonical null = codes "null"
  canonical (bool true) = codes "true"
  canonical (bool false) = codes "false"
  canonical (int n) = decimal n
  canonical (neg n) = b'-' ∷ decimal (suc n)
  canonical (float t) = t
  canonical (str s) = quoted s
  canonical (arr vs) = b'[' ∷ (commas (canonical_items vs) ++ b']' ∷ [])
  canonical (obj fs) =
      b'{' ∷ (commas (map printed_field (sort_keys (canonical_fields fs))) ++ b'}' ∷ [])

  pub canonical_items : Items → List Text
  canonical_items nil = []
  canonical_items (cons v vs) = canonical v ∷ canonical_items vs

  pub canonical_fields : Fields → List (Text × Text)
  canonical_fields end = []
  canonical_fields (field k v fs) = (k, canonical v) ∷ canonical_fields fs
