-- ===== src/Png/Bounds.antt =====
-- What `decode` of pngcodec.py returns: the length of the image's buffer, and the range of its numbers.
use xr_browser.Prelude.{
  ℕ, zero, suc, ◌+◌, ◌*◌, ◌^◌, ◌<◌, ◌≡◌, refl, Text, starts_with, Bool, true, false, not, ◌||◌, inl,
  inr, Option, none, some, List, [], ◌∷◌, ◌++◌, All, All-append, length, take, drop, ltb, leb, ◌==◌,
  codes, text_eq, arith, if◌then◌else◌,
}
use xr_browser.Png.{
  Bytes, Image, Zlib, Coded, ok, raises, Ensures, Ensures-bind, Ensures-if, Ensures-eq-ok,
  Ensures-reject, unpack, unsupported_depth, byte_at,
}
use xr_browser.Png.Slices.{IsBytes, All-take, All-drop}
use xr_browser.Png.Write.{signature}
use xr_browser.Png.Ends.{Turn-cases}
use xr_browser.Png.Read.{
  Pixel, Chunks, no_chunks, palette_of, read_ihdr, Turn, turn, go_on_with, go_on, done, failed,
  read_chunk, read_chunks, channels_of, read_rows, zeros, supported, inflated, read_image, decode,
}
use xr_browser.Png.Rows.{AreBytes, IsPixel, IsRead, read_rows-AreBytes}

unpack-lt : (bs : Bytes) → IsBytes bs → unpack (take 4 bs) < 2 ^ 32
unpack-lt [] h = omega arith
unpack-lt (a ∷ []) h = omega (arith, h.0)
unpack-lt (a ∷ b ∷ []) h = omega (arith, h.0, h.1.0)
unpack-lt (a ∷ b ∷ c ∷ []) h = omega (arith, h.0, h.1.0, h.1.1.0)
unpack-lt (a ∷ b ∷ c ∷ d ∷ bs) h = omega (arith, h.0, h.1.0, h.1.1.0, h.1.1.1.0)

palette_of-IsPixel :
    (body : Bytes) → IsBytes body → Ensures (All (λ p. IsPixel p)) (palette_of body)
unfolding palette_of
palette_of-IsPixel [] h = tt
palette_of-IsPixel (r ∷ []) h = tt
palette_of-IsPixel (r ∷ g ∷ []) h = tt
palette_of-IsPixel (r ∷ g ∷ b ∷ body) h =
    Ensures-bind (All (λ p. IsPixel p)) (All (λ p. IsPixel p)) (palette_of body) _
      (palette_of-IsPixel body h.1.1.1)
      (λ ps hps. (record { r = h.0; g = h.1.0; b = h.1.1.0; a = omega arith }, hps))

abbrev sized : Chunks → Bytes → Chunks
sized s body = record s {
  width = unpack (take 4 body);
  height = unpack (take 4 (drop 4 body));
  colortype = byte_at 9 body;
  ihdr_seen = true;
}

sized-IsRead : (s : Chunks) (body : Bytes) → IsRead s → IsBytes body → IsRead (sized s body)
sized-IsRead s body read h = record {
  width = unpack-lt body h;
  height = unpack-lt (drop 4 body) (All-drop (λ b. b < 256) 4 body h);
  idat = read.idat;
  palette = read.palette;
  trns = read.trns;
}

read_ihdr-IsRead :
    (s : Chunks) (body : Bytes) → IsRead s → IsBytes body → Ensures IsRead (read_ihdr s body)
unfolding read_ihdr
read_ihdr-IsRead s body read h =
    Ensures-reject IsRead (s.ihdr_seen || not (length body == 13)) _ _ (λ e.
      Ensures-reject IsRead
        (not (byte_at 10 body == 0) || not (byte_at 11 body == 0) || not (byte_at 12 body == 0)) _ _
        (λ f.
          Ensures-reject IsRead (not (byte_at 8 body == 8)) (unsupported_depth (byte_at 8 body))
            (ok (sized s body)) (λ g. sized-IsRead s body read h)))

read_chunk-IsRead :
    (s : Chunks) (tag : Text) (body : Bytes)
    → IsRead s
    → IsBytes body
    → Ensures IsRead (read_chunk s tag body)
unfolding read_chunk
read_chunk-IsRead s tag body read h =
    Ensures-if IsRead (text_eq tag (codes "IHDR")) _ _ (λ e. read_ihdr-IsRead s body read h)
      (λ e.
        Ensures-if IsRead (text_eq tag (codes "IDAT")) _ _
          (λ e. with_idat (s.idat ++ body) (All-append (λ b. b < 256) s.idat body read.idat h))
          (λ e.
            Ensures-if IsRead (text_eq tag (codes "PLTE")) _ _
              (λ e.
                Ensures-bind (All (λ p. IsPixel p)) IsRead (palette_of body) _
                  (palette_of-IsPixel body h)
                  (λ ps hps.
                    with_palette (s.palette ++ ps)
                      (All-append (λ p. IsPixel p) s.palette ps read.palette hps)))
              (λ e.
                Ensures-if IsRead (text_eq tag (codes "tRNS")) _ _ (λ e. with_trns) (λ e. read))))
  where
    with_idat : (bs : Bytes) → IsBytes bs → IsRead (record s { idat = bs })
    with_idat bs hbs = record {
      width = read.width;
      height = read.height;
      idat = hbs;
      palette = read.palette;
      trns = read.trns;
    }

    with_palette : (ps : List Pixel) → All (λ p. IsPixel p) ps → IsRead (record s { palette = ps })
    with_palette ps hps = record {
      width = read.width;
      height = read.height;
      idat = read.idat;
      palette = hps;
      trns = read.trns;
    }

    with_trns : IsRead (record s { trns = body })
    with_trns = record {
      width = read.width;
      height = read.height;
      idat = read.idat;
      palette = read.palette;
      trns = h;
    }

-- What a round of the loop keeps.
abbrev Keeps : Turn → Type 0
Keeps (failed e) = Unit
Keeps (done s) = IsRead s
Keeps (go_on s rest) = IsRead s × IsBytes rest

go_on_with-Keeps :
    (later : Bytes) (r : Coded Chunks)
    → IsBytes later
    → Ensures IsRead r
    → Keeps (go_on_with later r)
go_on_with-Keeps later (raises e) h r = tt
go_on_with-Keeps later (ok s) h r = (r, h)

Keeps-if : (test : Bool) (t u : Turn) → Keeps t → Keeps u → Keeps (if test then t else u)
Keeps-if true t u h k = h
Keeps-if false t u h k = k

turn-Keeps : (s : Chunks) (rest : Bytes) → IsRead s → IsBytes rest → Keeps (turn s rest)
unfolding turn
turn-Keeps s rest read h =
    let size = unpack (take 4 rest) in
    let tag = take 4 (drop 4 rest) in
    let rest8 = All-drop (λ b. b < 256) 8 rest h in
    let body = All-take (λ b. b < 256) size (drop 8 rest) rest8 in
    let later = All-drop (λ b. b < 256) 4 _ (All-drop (λ b. b < 256) size (drop 8 rest) rest8) in
    Keeps-if (not (leb 8 (length rest))) _ _ read (
      Keeps-if (ltb (length rest) (12 + size)) _ _ tt (
        Keeps-if (text_eq tag (codes "IEND")) _ _ read (
          go_on_with-Keeps _ _ later
            (read_chunk-IsRead s tag (take size (drop 8 rest)) read body))))

read_chunks-IsRead :
    (fuel : ℕ) (s : Chunks) (rest : Bytes)
    → IsRead s
    → IsBytes rest
    → Ensures IsRead (read_chunks fuel s rest)
unfolding read_chunks
read_chunks-IsRead zero s rest read h = tt
read_chunks-IsRead (suc fuel) s rest read h = elim (Turn-cases (turn s rest)) [
  | inl (e, t) ↦ rw (t, Ensures) tt
  | inr (inl (last, t)) ↦ rw (t, Ensures) (rw t at (turn-Keeps s rest read h))
  | inr (inr (next, later, t)) ↦
      let kept : IsRead next × IsBytes later = rw t at (turn-Keeps s rest read h) in
      rw (t, Ensures) (read_chunks-IsRead fuel next later kept.0 kept.1)
]

supported-eq-some : (c : ℕ) (o : Option ℕ) → Ensures (λ n. o ≡ some n) (supported c o)
supported-eq-some c none = tt
supported-eq-some c (some n) = refl

inflated-IsBytes :
    (o : Option Bytes) → ((raw : Bytes) → o ≡ some raw → IsBytes raw) → Ensures IsBytes (inflated o)
inflated-IsBytes none h = tt
inflated-IsBytes (some raw) h = h raw refl

-- An image of machine-sized dimensions with four bytes for each pixel.
pub record IsImage (img : Image) : Type 0 where
  pub width : img.width < 2 ^ 32
  pub height : img.height < 2 ^ 32
  pub size : length img.rgba ≡ img.width * img.height * 4
  pub bytes : IsBytes img.rgba

read_image-IsImage :
    (z : Zlib) (s : Chunks)
    → ((xs raw : Bytes) → z.decompress xs ≡ some raw → IsBytes raw)
    → IsRead s
    → Ensures IsImage (read_image z s)
unfolding read_image
read_image-IsImage z s inflates read = Ensures-reject IsImage (not s.ihdr_seen) _ _ (λ e.
    Ensures-bind (λ c. channels_of s.colortype ≡ some c) IsImage
      (supported s.colortype (channels_of s.colortype)) _
      (supported-eq-some s.colortype (channels_of s.colortype))
      (λ channels c.
        Ensures-bind IsBytes IsImage (inflated (z.decompress s.idat)) _
          (inflated-IsBytes (z.decompress s.idat) (inflates s.idat))
          (λ raw hraw.
            Ensures-reject IsImage (ltb (length raw) (s.height * (s.width * channels + 1))) _ _
              (λ e.
                Ensures-bind (AreBytes (s.height * (s.width * 4))) IsImage
                  (read_rows s channels s.height raw (zeros (s.width * channels))) _
                  (read_rows-AreBytes s channels s.height raw (zeros (s.width * channels)) read c
                    hraw)
                  (λ rgba h. record {
                    width = read.width;
                    height = read.height;
                    size = grind (arith, h.size);
                    bytes = h.bytes;
                  })))))

decode_ensures :
    (z : Zlib) (data_bytes : Bytes)
    → ((xs raw : Bytes) → z.decompress xs ≡ some raw → IsBytes raw)
    → IsBytes data_bytes
    → Ensures IsImage (decode z data_bytes)
unfolding decode
decode_ensures z data_bytes inflates h =
    Ensures-reject IsImage (not (starts_with signature data_bytes)) _ _ (λ e.
      Ensures-bind IsRead IsImage
        (read_chunks (suc (length data_bytes)) no_chunks (drop 8 data_bytes)) (read_image z)
        (read_chunks-IsRead (suc (length data_bytes)) no_chunks (drop 8 data_bytes) nothing_read
          (All-drop (λ b. b < 256) 8 data_bytes h))
        (λ s read. read_image-IsImage z s inflates read))
  where
    nothing_read : IsRead no_chunks
    nothing_read = record {
      width = omega arith;
      height = omega arith;
      idat = tt;
      palette = tt;
      trns = tt;
    }

-- Where zlib inflates to bytes, an image decoded from bytes has dimensions below 2 ^ 32, and its
-- buffer holds four bytes, each below 256, for each pixel.
pub decode-IsImage :
    (z : Zlib) (data_bytes : Bytes) (img : Image)
    → ((xs raw : Bytes) → z.decompress xs ≡ some raw → IsBytes raw)
    → IsBytes data_bytes
    → decode z data_bytes ≡ ok img
    → IsImage img
decode-IsImage z data_bytes img inflates h e =
    Ensures-eq-ok IsImage img (decode z data_bytes) (decode_ensures z data_bytes inflates h) e
