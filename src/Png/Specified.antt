-- ===== src/Png/Specified.antt =====
-- The row filters of the PNG specification, and the guesses of `_unfilter` against its predictions.
use xr_browser.Prelude.{
  ℕ, zero, suc, ◌+◌, ◌-◌, ◌%◌, ◌/◌, ◌&&◌, ◌≤◌, ◌<◌, ◌≡◌, refl, ap, [], ◌∷◌, length, ltb, leb,
  if◌then◌else◌, arith,
}
use xr_browser.Png.{Bytes, byte_at}
use xr_browser.Png.Filter.{distance, behind, paeth, guess}

-- The byte of the pixel before, as the specification has it.
abbrev pub before : ℕ → ℕ → Bytes → ℕ
before bpp i xs = if ltb i bpp then 0 else byte_at (i - bpp) xs

abbrev pub gap : ℕ → ℕ → ℕ
gap x y = (x - y) + (y - x)

-- Of a, b and c the nearest to a + b - c, the first of them on a tie.
unfoldable pub nearest : ℕ → ℕ → ℕ → ℕ
nearest a b c =
    if leb (gap b c) (gap a c) && leb (gap b c) (gap (a + b) (c + c))
    then a
    else (if leb (gap a c) (gap (a + b) (c + c)) then b else c)

-- What the specification predicts of the byte at `i`, from the row itself and the one above: nothing,
-- the byte to the left, the one above, their mean, and Paeth's choice.
unfoldable pub prediction : ℕ → ℕ → Bytes → ℕ → Bytes → ℕ
prediction zero bpp prev i orig = 0
prediction (suc zero) bpp prev i orig = before bpp i orig
prediction (suc (suc zero)) bpp prev i orig = byte_at i prev
prediction (suc (suc (suc zero))) bpp prev i orig = (before bpp i orig + byte_at i prev) / 2
prediction (suc (suc (suc (suc f)))) bpp prev i orig =
    nearest (before bpp i orig) (byte_at i prev) (before bpp i prev)

gap-distance : (x y z t : ℕ) → x + t ≡ y + z → gap x y ≡ distance z t
gap-distance x y z t e = ground arith

nearest-paeth : (a b c : ℕ) → nearest a b c ≡ paeth a b c
unfolding nearest paeth
nearest-paeth a b c =
    rw
      (
        gap-distance b c (a + b) (c + a) (omega arith),
        gap-distance a c (a + b) (c + b) (omega arith),
        gap-distance (a + b) (c + c) (a + b) (c + c) (omega arith),
      )
      refl

before-behind : (bpp i : ℕ) (xs : Bytes) → before bpp i xs ≡ behind bpp i xs
before-behind bpp i xs = ground arith

guess-paeth :
    (ftype bpp : ℕ) (prev : Bytes) (i : ℕ) (out : Bytes)
    → 4 ≤ ftype
    → paeth (behind bpp i out) (byte_at i prev) (behind bpp i prev) ≡ guess ftype bpp prev i out
unfolding guess
guess-paeth ftype bpp prev i out t = ground arith

pub prediction-guess :
    (ftype bpp : ℕ) (prev : Bytes) (i : ℕ) (orig : Bytes)
    → 2 ≤ ftype
    → prediction ftype bpp prev i orig ≡ guess ftype bpp prev i orig
unfolding prediction guess
prediction-guess zero bpp prev i orig t = absurd (omega arith)
prediction-guess (suc zero) bpp prev i orig t = absurd (omega arith)
prediction-guess (suc (suc zero)) bpp prev i orig t = refl
prediction-guess (suc (suc (suc zero))) bpp prev i orig t = rw (before-behind bpp i orig) refl
prediction-guess (suc (suc (suc (suc f)))) bpp prev i orig t =
    rw
      (
        nearest-paeth (before bpp i orig) (byte_at i prev) (before bpp i prev),
        before-behind bpp i orig,
        before-behind bpp i prev,
      )
      (guess-paeth (suc (suc (suc (suc f)))) bpp prev i orig (omega arith))

unfoldable pub filter_from : ℕ → ℕ → Bytes → Bytes → ℕ → ℕ → Bytes
filter_from ftype bpp prev orig zero i = []
filter_from ftype bpp prev orig (suc n) i =
    (byte_at i orig + (256 - prediction ftype bpp prev i orig % 256)) % 256
    ∷ filter_from ftype bpp prev orig n (suc i)

-- The specification's filter: each byte less its prediction, modulo 256.
unfoldable pub filter_row : ℕ → ℕ → Bytes → Bytes → Bytes
filter_row ftype bpp prev orig = filter_from ftype bpp prev orig (length orig) 0

pub length-filter_from :
    (ftype bpp : ℕ) (prev orig : Bytes) (n i : ℕ) → length (filter_from ftype bpp prev orig n i) ≡ n
unfolding filter_from
length-filter_from ftype bpp prev orig zero i = refl
length-filter_from ftype bpp prev orig (suc n) i =
    ap suc (length-filter_from ftype bpp prev orig n (suc i))

pub byte_at-filter_from :
    (ftype bpp : ℕ) (prev orig : Bytes) (n i j : ℕ)
    → j < n
    → byte_at j (filter_from ftype bpp prev orig n i)
      ≡ (byte_at (i + j) orig + (256 - prediction ftype bpp prev (i + j) orig % 256)) % 256
unfolding filter_from byte_at
byte_at-filter_from ftype bpp prev orig zero i j h = absurd (omega arith)
byte_at-filter_from ftype bpp prev orig (suc n) i zero h =
    let e : i + 0 ≡ i = omega arith in rw e refl
byte_at-filter_from ftype bpp prev orig (suc n) i (suc j) h =
    let e : i + suc j ≡ suc i + j = omega arith in
    rw e (byte_at-filter_from ftype bpp prev orig n (suc i) j (omega arith))
