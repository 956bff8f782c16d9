-- ===== src/Png.antt =====
-- build/qa/visual/pngcodec.py: images, errors, and the words of a PNG file. zlib and its CRC are a
-- parameter, `Zlib`; a stuck loop is the result `out_of_fuel`.
pub mod Filter
pub mod Write
pub mod Read
pub mod Slices
pub mod Specified
pub mod Unfilter
pub mod Ends
pub mod Framing
pub mod RoundTrip
pub mod Rows
pub mod Bounds
mod Tests
use mathlib.Core.Path.{subst}
use xr_browser.Prelude.{
  ℕ, zero, suc, ◌+◌, ◌-◌, ◌*◌, ◌/◌, ◌%◌, ◌^◌, ◌<◌, ◌≡◌, refl, Bool, true, false, Option, List, [],
  ◌∷◌, ◌++◌, ltb, if◌then◌else◌,
}

-- bytes and bytearray: each number is below 256.
abbrev pub Bytes : Type 0
Bytes = List ℕ

pub record Image : Type 0 where
  pub width : ℕ
  pub height : ℕ
  pub rgba : Bytes

-- The PngErrors, and the exceptions of Python that leave the codec: struct.error of a number that
-- does not fit in four bytes, and IndexError.
pub data PngError : Type 0 where
  bad_dimensions bad_buffer bad_signature truncated_chunk bad_ihdr unsupported_method : PngError
  no_ihdr bad_idat scanline_short scanline_truncated bad_palette_index : PngError
  unsupported_depth unsupported_color bad_filter : ℕ → PngError
  struct_error index_error out_of_fuel : PngError

-- What a function of the codec gives: a value or an exception.
pub data Coded {ℓ} (A : Type ℓ) : Type ℓ where
  raises : PngError → Coded A
  ok : A → Coded A

infixl 5 ◌>>=◌ ◌>>◌
abbrev pub ◌>>=◌ {ℓ κ} : {A : Type ℓ} {B : Type κ} → Coded A → (A → Coded B) → Coded B
raises problem >>= next = raises problem
ok value >>= next = next value

-- `if test: raise problem`
abbrev pub reject : Bool → PngError → Coded (Unit {0})
reject false problem = ok tt
reject true problem = raises problem

abbrev pub ◌>>◌ {ℓ} : {B : Type ℓ} → Coded (Unit {0}) → Coded B → Coded B
first >> rest = first >>= λ _. rest

-- What a successful block has computed, step by step.
pub bind-eq-ok {ℓ κ} :
    {A : Type ℓ} {B : Type κ} (first : Coded A) (next : A → Coded B) {b : B}
    → (first >>= next) ≡ ok b
    → (a : A) × (first ≡ ok a) × (next a ≡ ok b)
bind-eq-ok (raises problem) next h = cc
bind-eq-ok (ok a) next h = (a, refl, h)

pub reject-eq-ok {ℓ} :
    {B : Type ℓ} (test : Bool) (e : PngError) (m : Coded B) {b : B}
    → (reject test e >> m) ≡ ok b
    → (test ≡ false) × (m ≡ ok b)
reject-eq-ok true e m h = cc
reject-eq-ok false e m h = (refl, h)

-- A result, if there is one, satisfies `P`.
abbrev pub Ensures {ℓ κ} : {A : Type ℓ} → (A → Type κ) → Coded A → Type κ
Ensures P (ok a) = P a
Ensures P (raises e) = Unit

pub Ensures-eq-ok {ℓ κ} :
    {A : Type ℓ} (P : A → Type κ) (a : A) (m : Coded A) → Ensures P m → m ≡ ok a → P a
Ensures-eq-ok P a (ok b) h e = let same : b ≡ a = cc in subst P same h
Ensures-eq-ok P a (raises x) h e = cc

pub Ensures-bind {ℓ κ μ} :
    {A : Type ℓ} {B : Type κ} (Q : A → Type μ) (P : B → Type μ) (m : Coded A) (f : A → Coded B)
    → Ensures Q m
    → ((a : A) → Q a → Ensures P (f a))
    → Ensures P (m >>= f)
Ensures-bind Q P (ok a) f q k = k a q
Ensures-bind Q P (raises e) f q k = tt

-- A branch may use its test.
pub Ensures-if {ℓ κ} :
    {A : Type ℓ} (P : A → Type κ) (test : Bool) (m n : Coded A)
    → (test ≡ true → Ensures P m)
    → (test ≡ false → Ensures P n)
    → Ensures P (if test then m else n)
Ensures-if P true m n h k = h refl
Ensures-if P false m n h k = k refl

-- The rest of a block may use that the test failed.
pub Ensures-reject {ℓ κ} :
    {B : Type ℓ} (P : B → Type κ) (test : Bool) (e : PngError) (m : Coded B)
    → (test ≡ false → Ensures P m)
    → Ensures P (reject test e >> m)
Ensures-reject P true e m k = tt
Ensures-reject P false e m k = k refl

-- The module zlib.
pub record Zlib : Type 0 where
  pub compress : Bytes → Bytes
  pub decompress : Bytes → Option Bytes
  pub crc32 : Bytes → ℕ

-- xs[i]; the callers keep i in range.
unfoldable pub byte_at : ℕ → Bytes → ℕ
byte_at i [] = 0
byte_at zero (x ∷ xs) = x
byte_at (suc i) (x ∷ xs) = byte_at i xs

-- xs[i] = v
unfoldable pub set_byte : ℕ → ℕ → Bytes → Bytes
set_byte i v [] = []
set_byte zero v (x ∷ xs) = v ∷ xs
set_byte (suc i) v (x ∷ xs) = x ∷ set_byte i v xs

-- The four bytes of a number, the most significant first.
abbrev pub word : ℕ → Bytes
word n = n / 16777216 ∷ n / 65536 % 256 ∷ n / 256 % 256 ∷ n % 256 ∷ []

-- struct.pack(">I", n)
abbrev pub pack : ℕ → Coded Bytes
pack n = if ltb n (2 ^ 32) then ok (word n) else raises struct_error

abbrev pub unpack_from : ℕ → Bytes → ℕ
unpack_from acc [] = acc
unpack_from acc (b ∷ bs) = unpack_from (acc * 256 + b) bs

-- struct.unpack(">I", bs)
abbrev pub unpack : Bytes → ℕ
unpack bs = unpack_from 0 bs
