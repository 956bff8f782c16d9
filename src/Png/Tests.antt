-- ===== src/Png/Tests.antt =====
-- An image of two pixels, written and read with a zlib that stores; a filtered row.
use mathlib.Core.Path.{subst}
use xr_browser.Prelude.{◌≡◌, ◌≢◌, refl, some, [], ◌∷◌, starts_with, text_eq, arith}
use xr_browser.Png.{Bytes, Image, Zlib, ok, raises, out_of_fuel, byte_at, set_byte, index_error}
use xr_browser.Png.Filter.{paeth, guess, unfilter_loop, unfilter}
use xr_browser.Png.Write.{raw_rows, chunk, header, encode}
use xr_browser.Png.Read.{
  palette_of, read_ihdr, read_chunk, turn, read_chunks, channels_of, palette_at, indexed, pixel,
  pixels, read_rows, zeros, read_image, decode,
}
use xr_browser.Png.Slices.{IsBytes}
use xr_browser.Png.Specified.{nearest, prediction, filter_from, filter_row}
use xr_browser.Png.Unfilter.{unfilter-filter_row}
use xr_browser.Png.Ends.{decode-ne-out_of_fuel}
use xr_browser.Png.RoundTrip.{decode-encode}
use xr_browser.Png.Bounds.{IsImage, decode-IsImage}

abbrev stored : Zlib
stored = record { compress = λ xs. xs; decompress = λ xs. some xs; crc32 = λ xs. 7 }

abbrev two_pixels : Image
two_pixels = record { width = 2; height = 1; rgba = 1 ∷ 2 ∷ 3 ∷ 4 ∷ 255 ∷ 0 ∷ 9 ∷ 8 ∷ [] }

-- A zlib that inflates everything to one row of two pixels.
abbrev fixed : Zlib
fixed = record {
  compress = λ xs. [];
  decompress = λ xs. some (0 ∷ two_pixels.rgba);
  crc32 = λ xs. 7;
}

abbrev file : Bytes
file =
    0x89 ∷ b'P' ∷ b'N' ∷ b'G' ∷ 13 ∷ 10 ∷ 0x1a ∷ 10 ∷ 0 ∷ 0 ∷ 0 ∷ 13 ∷ b'I' ∷ b'H' ∷ b'D' ∷ b'R' ∷ 0
    ∷ 0 ∷ 0 ∷ 2 ∷ 0 ∷ 0 ∷ 0 ∷ 1 ∷ 8 ∷ 6 ∷ 0 ∷ 0 ∷ 0 ∷ 0 ∷ 0 ∷ 0 ∷ 7 ∷ 0 ∷ 0 ∷ 0 ∷ 9 ∷ b'I' ∷ b'D'
    ∷ b'A' ∷ b'T' ∷ 0 ∷ 1 ∷ 2 ∷ 3 ∷ 4 ∷ 255 ∷ 0 ∷ 9 ∷ 8 ∷ 0 ∷ 0 ∷ 0 ∷ 7 ∷ 0 ∷ 0 ∷ 0 ∷ 0 ∷ b'I'
    ∷ b'E' ∷ b'N' ∷ b'D' ∷ 0 ∷ 0 ∷ 0 ∷ 7 ∷ []

codec_run : Unit {0}
unfolding encode header chunk raw_rows decode read_chunks turn read_chunk read_ihdr palette_of
    read_image channels_of palette_at indexed pixel pixels read_rows zeros unfilter unfilter_loop
    guess paeth byte_at set_byte text_eq starts_with filter_row prediction nearest filter_from
codec_run = tt

encode_run : encode stored two_pixels ≡ ok file
unfolding codec_run
encode_run = refl

decode_run : decode stored file ≡ ok two_pixels
unfolding codec_run
decode_run = refl

decode_fixed : decode fixed file ≡ ok two_pixels
unfolding codec_run
decode_fixed = refl

-- A PLTE chunk of four bytes leaves the codec with an IndexError.
short_palette : palette_of (1 ∷ 2 ∷ 3 ∷ 4 ∷ []) ≡ raises index_error
unfolding codec_run
short_palette = refl

paeth_row : filter_row 4 3 (10 ∷ 20 ∷ 30 ∷ 40 ∷ []) (11 ∷ 22 ∷ 33 ∷ 5 ∷ []) ≡ 1 ∷ 2 ∷ 3 ∷ 221 ∷ []
unfolding codec_run
paeth_row = refl

decode-encode_example : decode stored file ≡ ok two_pixels
decode-encode_example = decode-encode stored two_pixels file (λ raw. refl) encode_run

unfilter-filter_row_example :
    unfilter 4
      (filter_row 4 3 (10 ∷ 20 ∷ 30 ∷ 40 ∷ []) (11 ∷ 22 ∷ 33 ∷ 5 ∷ []))
      (10 ∷ 20 ∷ 30 ∷ 40 ∷ [])
      3
    ≡ ok (11 ∷ 22 ∷ 33 ∷ 5 ∷ [])
unfilter-filter_row_example =
    unfilter-filter_row 4 3 (10 ∷ 20 ∷ 30 ∷ 40 ∷ []) (11 ∷ 22 ∷ 33 ∷ 5 ∷ []) (omega arith)
      (omega arith) refl (omega arith, (omega arith, (omega arith, (omega arith, tt))))

decode-ne-out_of_fuel_example : decode stored file ≢ raises out_of_fuel
decode-ne-out_of_fuel_example = decode-ne-out_of_fuel stored file

file-IsBytes : IsBytes file
file-IsBytes = ground arith

fixed-IsBytes : (xs raw : Bytes) → fixed.decompress xs ≡ some raw → IsBytes raw
fixed-IsBytes xs raw e = subst IsBytes (same e) (ground arith)
  where
    same : some (0 ∷ two_pixels.rgba) ≡ some raw → 0 ∷ two_pixels.rgba ≡ raw
    same e = cc

decode-IsImage_example : IsImage two_pixels
decode-IsImage_example =
    decode-IsImage fixed file two_pixels fixed-IsBytes file-IsBytes decode_fixed
