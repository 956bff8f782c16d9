-- ===== src/Png/Write.antt =====
-- `_chunk` and `encode` of pngcodec.py.
use xr_browser.Prelude.{
  ℕ, zero, suc, ◌*◌, Text, not, ◌||◌, [], ◌∷◌, ◌++◌, codes, length, take, drop, ◌==◌,
}
use xr_browser.Png.{
  Bytes, Image, Zlib, Coded, ok, reject, ◌>>=◌, ◌>>◌, bad_dimensions, bad_buffer, pack,
}

-- SIGNATURE
abbrev pub signature : Bytes
signature = 0x89 ∷ b'P' ∷ b'N' ∷ b'G' ∷ 13 ∷ 10 ∷ 0x1a ∷ 10 ∷ []

-- The filter byte 0 and a row of `stride` bytes, for each of the rows that are left.
unfoldable pub raw_rows : ℕ → ℕ → Bytes → Bytes
raw_rows stride zero rgba = []
raw_rows stride (suc n) rgba = 0 ∷ (take stride rgba ++ raw_rows stride n (drop stride rgba))

module _ (z : Zlib) where
  unfoldable pub chunk : Text → Bytes → Coded Bytes
  chunk tag data_bytes = do
    size ← pack (length data_bytes)
    crc ← pack (z.crc32 (tag ++ data_bytes))
    ok (size ++ (tag ++ (data_bytes ++ crc)))

  -- struct.pack(">IIBBBBB", width, height, 8, 6, 0, 0, 0)
  unfoldable pub header : Image → Coded Bytes
  header img = do
    width ← pack img.width
    height ← pack img.height
    ok (width ++ (height ++ 8 ∷ 6 ∷ 0 ∷ 0 ∷ 0 ∷ []))

  unfoldable pub encode : Image → Coded Bytes
  encode img = do
    reject (img.width == 0 || img.height == 0) bad_dimensions
    reject (not (length img.rgba == img.width * img.height * 4)) bad_buffer
    ihdr ← header img
    first ← chunk (codes "IHDR") ihdr
    middle ← chunk (codes "IDAT") (z.compress (raw_rows (img.width * 4) img.height img.rgba))
    last ← chunk (codes "IEND") []
    ok (signature ++ (first ++ (middle ++ last)))
