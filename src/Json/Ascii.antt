-- ===== src/Json/Ascii.antt =====
-- The characters of `canonical` text.
use xr_browser.Prelude.{
  ℕ, suc, ◌+◌, ◌-◌, ◌/◌, ◌%◌, ◌<◌, Text, Bool, true, false, ◌≡◌, refl, ◌&&◌, List, [], ◌∷◌, ◌++◌,
  map, all, all-append, leb, decimal, decimal-digits, is_ascii_digit, All, arith,
}
use xr_browser.Json.{
  Json, null, bool, int, neg, float, str, arr, obj, Items, nil, cons, Fields, end, field, hex_digit,
  unicode_escape, escape_wide, escape_char, escape, quoted, insert_key, sort_keys, commas,
  printed_field, canonical, canonical_items, canonical_fields,
}

-- From the space to the tilde.
abbrev pub is_printable : ℕ → Bool
is_printable c = leb 32 c && leb c 126

abbrev pub IsPrintable : Text → Type 0
IsPrintable t = all is_printable t ≡ true

hex_digit-printable : (n : ℕ) → n < 16 → is_printable (hex_digit n) ≡ true
unfolding hex_digit
hex_digit-printable n h = ground arith

unicode_escape-IsPrintable : (n : ℕ) → IsPrintable (unicode_escape n)
unfolding unicode_escape
unicode_escape-IsPrintable n = ground (
  arith,
  hex_digit-printable (n / 4096 % 16) (omega arith),
  hex_digit-printable (n / 256 % 16) (omega arith),
  hex_digit-printable (n / 16 % 16) (omega arith),
  hex_digit-printable (n % 16) (omega arith),
)

escape_wide-IsPrintable : (c : ℕ) → IsPrintable (escape_wide c)
unfolding escape_wide
escape_wide-IsPrintable c = ground (
  arith,
  unicode_escape-IsPrintable c,
  all-append is_printable (unicode_escape (0xd800 + (c - 0x10000) / 1024 % 1024))
      (unicode_escape (0xdc00 + (c - 0x10000) % 1024)),
  unicode_escape-IsPrintable (0xd800 + (c - 0x10000) / 1024 % 1024),
  unicode_escape-IsPrintable (0xdc00 + (c - 0x10000) % 1024),
)

escape_char-IsPrintable : (c : ℕ) → IsPrintable (escape_char c)
unfolding escape_char
escape_char-IsPrintable c = ground (arith, escape_wide-IsPrintable c)

escape-IsPrintable : (s : Text) → IsPrintable (escape s)
unfolding escape
escape-IsPrintable [] = refl
escape-IsPrintable (c ∷ s) = ground (
  arith,
  all-append is_printable (escape_char c) (escape s),
  escape_char-IsPrintable c,
  escape-IsPrintable s,
)

quoted-IsPrintable : (s : Text) → IsPrintable (quoted s)
unfolding quoted
quoted-IsPrintable s =
    ground (arith, all-append is_printable (escape s) (b'"' ∷ []), escape-IsPrintable s)

digits-IsPrintable : (s : Text) → all is_ascii_digit s ≡ true → IsPrintable s
digits-IsPrintable [] h = refl
digits-IsPrintable (c ∷ s) h = ground (arith, digits-IsPrintable s)

commas-IsPrintable : (ps : List Text) → All IsPrintable ps → IsPrintable (commas ps)
unfolding commas
commas-IsPrintable [] h = refl
commas-IsPrintable (p ∷ []) h = h.0
commas-IsPrintable (p ∷ q ∷ ps) h =
    ground
      (arith, all-append is_printable p (b',' ∷ commas (q ∷ ps)), commas-IsPrintable (q ∷ ps) h.1)

-- The second parts of the printed fields.
abbrev Values : List (Text × Text) → Type 0
Values fs = All (λ f. IsPrintable f.1) fs

insert_key-Values :
    (f : Text × Text) (fs : List (Text × Text))
    → IsPrintable f.1
    → Values fs
    → Values (insert_key f fs)
unfolding insert_key
insert_key-Values (k, v) [] h hs = (h, tt)
insert_key-Values (k, v) ((j, w) ∷ fs) h hs = ground (arith, insert_key-Values (k, v) fs h hs.1)

sort_keys-Values : (fs : List (Text × Text)) → Values fs → Values (sort_keys fs)
unfolding sort_keys
sort_keys-Values [] h = tt
sort_keys-Values (f ∷ fs) h = insert_key-Values f (sort_keys fs) h.0 (sort_keys-Values fs h.1)

printed-All : (fs : List (Text × Text)) → Values fs → All IsPrintable (map printed_field fs)
unfolding printed_field
printed-All [] h = tt
printed-All ((k, v) ∷ fs) h = (
  ground (arith, all-append is_printable (quoted k) (b':' ∷ v), quoted-IsPrintable k),
  printed-All fs h.1,
)

bracketed :
    (open_char close_char : ℕ) (t : Text)
    → is_printable open_char ≡ true
    → is_printable close_char ≡ true
    → IsPrintable t
    → IsPrintable (open_char ∷ (t ++ close_char ∷ []))
bracketed a b t h k p = ground (arith, all-append is_printable t (b ∷ []))

unfoldable mutual
  -- No float is printed other than in ASCII.
  pub HasPlainFloats : Json → Type 0
  HasPlainFloats (float t) = IsPrintable t
  HasPlainFloats (arr vs) = ItemsPlain vs
  HasPlainFloats (obj fs) = FieldsPlain fs
  HasPlainFloats _ = Unit

  pub ItemsPlain : Items → Type 0
  ItemsPlain nil = Unit
  ItemsPlain (cons v vs) = HasPlainFloats v × ItemsPlain vs

  pub FieldsPlain : Fields → Type 0
  FieldsPlain end = Unit
  FieldsPlain (field k v fs) = HasPlainFloats v × FieldsPlain fs

mutual
  unfolding canonical HasPlainFloats

  print : (v : Json) → HasPlainFloats v → IsPrintable (canonical v)
  print null h = refl
  print (bool true) h = refl
  print (bool false) h = refl
  print (int n) h = digits-IsPrintable (decimal n) (decimal-digits n)
  print (neg n) h = digits-IsPrintable (decimal (suc n)) (decimal-digits (suc n))
  print (float t) h = h
  print (str s) h = quoted-IsPrintable s
  print (arr vs) h =
      bracketed b'[' b']' (commas (canonical_items vs)) refl refl
        (commas-IsPrintable (canonical_items vs) (print_items vs h))
  print (obj fs) h =
      bracketed b'{' b'}' (commas (map printed_field (sort_keys (canonical_fields fs)))) refl refl
        (commas-IsPrintable _ (printed-All _ (sort_keys-Values _ (print_fields fs h))))

  print_items : (vs : Items) → ItemsPlain vs → All IsPrintable (canonical_items vs)
  print_items nil h = tt
  print_items (cons v vs) h = (print v h.0, print_items vs h.1)

  print_fields : (fs : Fields) → FieldsPlain fs → Values (canonical_fields fs)
  print_fields end h = tt
  print_fields (field k v fs) h = (print v h.0, print_fields fs h.1)

-- Canonical text is printable ASCII, if the floats are printed so.
pub canonical-IsPrintable : (v : Json) → HasPlainFloats v → IsPrintable (canonical v)
canonical-IsPrintable v h = print v h
