-- ===== src/Png/Filter.antt =====
-- `_paeth` and `_unfilter` of pngcodec.py: the five row filters.
use xr_browser.Prelude.{
  ℕ, zero, suc, ◌+◌, ◌-◌, ◌/◌, ◌%◌, ◌&&◌, length, ltb, leb, ◌==◌, if◌then◌else◌,
}
use xr_browser.Png.{
  Bytes, Coded, ok, raises, reject, ◌>>◌, bad_filter, index_error, byte_at, set_byte,
}

-- abs(x - y)
abbrev pub distance : ℕ → ℕ → ℕ
distance x y = if ltb x y then y - x else x - y

-- With p = a + b - c, abs(p - x) is the distance of a + b and c + x.
unfoldable pub paeth : ℕ → ℕ → ℕ → ℕ
paeth a b c =
    let pa = distance (a + b) (c + a) in
    let pb = distance (a + b) (c + b) in
    let pc = distance (a + b) (c + c) in
    if leb pa pb && leb pa pc then a else (if leb pb pc then b else c)

-- xs[i - bpp] if i >= bpp else 0
abbrev pub behind : ℕ → ℕ → Bytes → ℕ
behind bpp i xs = if leb bpp i then byte_at (i - bpp) xs else 0

-- `n` rounds from `i` of: out[i] = (out[i] + guess) & 0xFF, where the guess reads out.
unfoldable pub unfilter_loop : (ℕ → Bytes → ℕ) → ℕ → ℕ → Bytes → Bytes
unfilter_loop guess zero i out = out
unfilter_loop guess (suc n) i out =
    unfilter_loop guess n (suc i) (set_byte i ((byte_at i out + guess i out) % 256) out)

-- The guess of each filter type; a type from 4 on is Paeth.
unfoldable pub guess : ℕ → ℕ → Bytes → ℕ → Bytes → ℕ
guess ftype bpp prev i out =
    if ftype == 1
    then byte_at (i - bpp) out
    else if ftype == 2
    then byte_at i prev
    else if ftype == 3
    then (behind bpp i out + byte_at i prev) / 2
    else paeth (behind bpp i out) (byte_at i prev) (behind bpp i prev)

-- prev[i] is out of range where the line above is shorter.
unfoldable pub unfilter : ℕ → Bytes → Bytes → ℕ → Coded Bytes
unfilter ftype line prev bpp =
    if ftype == 0
    then ok line
    else if ftype == 1
    then ok (unfilter_loop (guess 1 bpp prev) (length line - bpp) bpp line)
    else if leb ftype 4
    then reject (ltb (length prev) (length line)) index_error
      >> ok (unfilter_loop (guess ftype bpp prev) (length line) 0 line)
    else raises (bad_filter ftype)
