-- ===== src/Png/Read.antt =====
-- `decode` of pngcodec.py: the loop over the chunks, and that over the rows. `rest` is data[pos:].
use xr_browser.Prelude.{
  ℕ, zero, suc, ◌+◌, ◌*◌, Text, Bool, true, false, not, ◌||◌, Option, none, some, List, [], ◌∷◌,
  ◌++◌, codes, text_eq, starts_with, length, take, drop, ltb, leb, ◌==◌, if◌then◌else◌,
}
use xr_browser.Png.{
  Bytes, Image, PngError, Zlib, Coded, ok, raises, reject, ◌>>=◌, ◌>>◌, bad_signature,
  truncated_chunk, bad_ihdr, unsupported_method, unsupported_depth, no_ihdr, unsupported_color,
  bad_idat, scanline_short, scanline_truncated, bad_palette_index, index_error, out_of_fuel,
  byte_at, unpack,
}
use xr_browser.Png.Filter.{unfilter}
use xr_browser.Png.Write.{signature}

pub record Pixel : Type 0 where
  pub r : ℕ
  pub g : ℕ
  pub b : ℕ
  pub a : ℕ

-- The local variables of the loop over the chunks.
pub record Chunks : Type 0 where
  pub width : ℕ
  pub height : ℕ
  pub colortype : ℕ
  pub idat : Bytes
  pub palette : List Pixel
  pub trns : Bytes
  pub ihdr_seen : Bool

abbrev pub no_chunks : Chunks
no_chunks = record {
  width = 0;
  height = 0;
  colortype = 0;
  idat = [];
  palette = [];
  trns = [];
  ihdr_seen = false;
}

-- The entries of a PLTE body; body[i + 1] or body[i + 2] may be out of range.
unfoldable pub palette_of : Bytes → Coded (List Pixel)
palette_of [] = ok []
palette_of (r ∷ g ∷ b ∷ body) = do
  ps ← palette_of body
  ok (record { r = r; g = g; b = b; a = 255 } ∷ ps)
palette_of _ = raises index_error

unfoldable pub read_ihdr : Chunks → Bytes → Coded Chunks
read_ihdr s body = do
  reject (s.ihdr_seen || not (length body == 13)) bad_ihdr
  reject (not (byte_at 10 body == 0) || not (byte_at 11 body == 0) || not (byte_at 12 body == 0))
      unsupported_method
  reject (not (byte_at 8 body == 8)) (unsupported_depth (byte_at 8 body))
  ok (record s {
    width = unpack (take 4 body);
    height = unpack (take 4 (drop 4 body));
    colortype = byte_at 9 body;
    ihdr_seen = true;
  })

-- The branches on the tag, but for that of IEND; `body` has the length of the chunk.
unfoldable pub read_chunk : Chunks → Text → Bytes → Coded Chunks
read_chunk s tag body =
    if text_eq tag (codes "IHDR")
    then read_ihdr s body
    else if text_eq tag (codes "IDAT")
    then ok (record s { idat = s.idat ++ body })
    else if text_eq tag (codes "PLTE")
    then (palette_of body >>= λ ps. ok (record s { palette = s.palette ++ ps }))
    else if text_eq tag (codes "tRNS")
    then ok (record s { trns = body })
    else ok s

-- How a round of the loop ends: with an error, out of the loop, or with what is left to read.
pub data Turn : Type 0 where
  failed : PngError → Turn
  done : Chunks → Turn
  go_on : Chunks → Bytes → Turn

abbrev pub go_on_with : Bytes → Coded Chunks → Turn
go_on_with later (raises e) = failed e
go_on_with later (ok s) = go_on s later

-- The test of the loop and its body.
unfoldable pub turn : Chunks → Bytes → Turn
turn s rest =
    if not (leb 8 (length rest))
    then done s
    else (let size = unpack (take 4 rest) in
        let tag = take 4 (drop 4 rest) in
        let body = take size (drop 8 rest) in
        if ltb (length rest) (12 + size)
        then failed truncated_chunk
        else if text_eq tag (codes "IEND")
        then done s
        else go_on_with (drop 4 (drop size (drop 8 rest))) (read_chunk s tag body))

-- The loop, on fuel.
unfoldable pub read_chunks : ℕ → Chunks → Bytes → Coded Chunks
read_chunks zero s rest = raises out_of_fuel
read_chunks (suc fuel) s rest = elim (turn s rest) [
  | failed e ↦ raises e
  | done last ↦ ok last
  | go_on next later ↦ read_chunks fuel next later
]

-- {0: 1, 2: 3, 3: 1, 4: 2, 6: 4}
unfoldable pub channels_of : ℕ → Option ℕ
channels_of c =
    if c == 0
    then some 1
    else if c == 2
    then some 3
    else if c == 3
    then some 1
    else if c == 4
    then some 2
    else if c == 6
    then some 4
    else none

unfoldable pub palette_at : ℕ → List Pixel → Option Pixel
palette_at i [] = none
palette_at zero (p ∷ ps) = some p
palette_at (suc i) (p ∷ ps) = palette_at i ps

-- The four bytes of an entry of the palette, its alpha from tRNS where that reaches.
unfoldable pub indexed : Bytes → ℕ → Option Pixel → Coded Bytes
indexed trns idx none = raises bad_palette_index
indexed trns idx (some p) =
    ok (p.r ∷ p.g ∷ p.b ∷ (if ltb idx (length trns) then byte_at idx trns else p.a) ∷ [])

-- The four bytes of pixel `x` of a row.
unfoldable pub pixel : Chunks → Bytes → ℕ → Coded Bytes
pixel s line x =
    if s.colortype == 0
    then (let g = byte_at x line in ok (g ∷ g ∷ g ∷ 255 ∷ []))
    else if s.colortype == 2
    then ok (take 3 (drop (x * 3) line) ++ 255 ∷ [])
    else if s.colortype == 3
    then (let idx = byte_at x line in indexed s.trns idx (palette_at idx s.palette))
    else if s.colortype == 4
    then (let g = byte_at (x * 2) line in ok (g ∷ g ∷ g ∷ byte_at (x * 2 + 1) line ∷ []))
    else ok (take 4 (drop (x * 4) line))

-- The loop over the `n` pixels of a row from `x` on.
unfoldable pub pixels : Chunks → Bytes → ℕ → ℕ → Coded Bytes
pixels s line zero x = ok []
pixels s line (suc n) x = do p ← pixel s line x; ps ← pixels s line n (suc x); ok (p ++ ps)

-- The loop over the `n` rows that are left; `prev` is the row above.
unfoldable pub read_rows : Chunks → ℕ → ℕ → Bytes → Bytes → Coded Bytes
read_rows s channels zero raw prev = ok []
read_rows s channels (suc n) [] prev = raises index_error
read_rows s channels (suc n) (ftype ∷ raw) prev = do
  let stride = s.width * channels
  reject (not (length (take stride raw) == stride)) scanline_truncated
  line ← unfilter ftype (take stride raw) prev channels
  row ← pixels s line s.width 0
  rows ← read_rows s channels n (drop stride raw) line
  ok (row ++ rows)

unfoldable pub zeros : ℕ → Bytes
zeros zero = []
zeros (suc n) = 0 ∷ zeros n

abbrev pub inflated : Option Bytes → Coded Bytes
inflated none = raises bad_idat
inflated (some raw) = ok raw

abbrev pub supported : ℕ → Option ℕ → Coded ℕ
supported c none = raises (unsupported_color c)
supported c (some channels) = ok channels

module _ (z : Zlib) where
  -- From the chunks to the image.
  unfoldable pub read_image : Chunks → Coded Image
  read_image s = do
    reject (not s.ihdr_seen) no_ihdr
    channels ← supported s.colortype (channels_of s.colortype)
    raw ← inflated (z.decompress s.idat)
    reject (ltb (length raw) (s.height * (s.width * channels + 1))) scanline_short
    rgba ← read_rows s channels s.height raw (zeros (s.width * channels))
    ok (record { width = s.width; height = s.height; rgba = rgba })

  -- More fuel than bytes is enough: a round of the loop takes twelve bytes at least.
  unfoldable pub decode : Bytes → Coded Image
  decode data_bytes =
      reject (not (starts_with signature data_bytes)) bad_signature
      >> (read_chunks (suc (length data_bytes)) no_chunks (drop 8 data_bytes) >>= read_image)
