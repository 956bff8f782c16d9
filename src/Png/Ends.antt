-- ===== src/Png/Ends.antt =====
-- The loop over the chunks of `decode`, and its fuel.
use xr_browser.Prelude.{
  ◌⊎◌, Option, none, some, not, ◌==◌, ◌*◌, starts_with, Bool, [], ◌∷◌, ℕ, zero, suc, ◌+◌, ◌<◌, ◌≡◌,
  ◌≢◌, refl, Text, Bool-cases, inl, inr, true, false, length, take, drop, ltb, leb, codes, text_eq,
  arith,
}
use xr_browser.Png.{
  no_ihdr, scanline_short, byte_at, Zlib, PngError, bad_signature, scanline_truncated, Bytes, Coded,
  ok, raises, out_of_fuel, unpack, reject, ◌>>=◌, ◌>>◌,
}
use xr_browser.Png.Slices.{length-drop}
use xr_browser.Png.Filter.{unfilter}
use xr_browser.Png.Write.{signature}
use xr_browser.Png.Read.{
  supported, inflated, zeros, Turn, go_on_with, go_on, turn, failed, done, no_chunks, Pixel,
  indexed, pixel, pixels, palette_at, read_rows, read_image, channels_of, Chunks, read_ihdr,
  palette_of, read_chunk, read_chunks, decode,
}

abbrev is_stuck {ℓ} : {A : Type ℓ} → Coded A → Bool
is_stuck (raises out_of_fuel) = true
is_stuck _ = false

bind-is_stuck {ℓ κ} :
    {A : Type ℓ} {B : Type κ} (m : Coded A) (f : A → Coded B)
    → is_stuck m ≡ false
    → ((a : A) → is_stuck (f a) ≡ false)
    → is_stuck (m >>= f) ≡ false
bind-is_stuck (ok a) f h k = k a
bind-is_stuck (raises e) f h k = h

palette_of_settles : (body : Bytes) → is_stuck (palette_of body) ≡ false
unfolding palette_of
palette_of_settles [] = refl
palette_of_settles (r ∷ []) = refl
palette_of_settles (r ∷ g ∷ []) = refl
palette_of_settles (r ∷ g ∷ b ∷ body) =
    bind-is_stuck (palette_of body) _ (palette_of_settles body) (λ ps. refl)

read_chunk_settles :
    (s : Chunks) (tag : Text) (body : Bytes) → is_stuck (read_chunk s tag body) ≡ false
unfolding read_chunk read_ihdr
read_chunk_settles s tag body = ground (arith, palette_of_settles body)

-- A round fails with an error of its own, or goes on with fewer bytes.
abbrev Advances : Bytes → Turn → Type 0
Advances rest (failed e) = is_stuck {A = Chunks} (raises e) ≡ false
Advances rest (done s) = Unit
Advances rest (go_on next later) = length later < length rest

go_on_with-Advances :
    (rest later : Bytes) (r : Coded Chunks)
    → is_stuck r ≡ false
    → length later < length rest
    → Advances rest (go_on_with later r)
go_on_with-Advances rest later (raises e) h l = h
go_on_with-Advances rest later (ok s) h l = l

turn-Advances : (s : Chunks) (rest : Bytes) → Advances rest (turn s rest)
unfolding turn
turn-Advances s rest = elim (Bool-cases (leb 8 (length rest))) [
  | inr short ↦ rw short tt
  | inl long ↦
      let size = unpack (take 4 rest) in
      let tag = take 4 (drop 4 rest) in
      let shorter : length (drop 4 (drop size (drop 8 rest))) < length rest = ground (
        arith,
        length-drop 4 (drop size (drop 8 rest)),
        length-drop size (drop 8 rest),
        length-drop 8 rest,
      ) in
      elim (Bool-cases (ltb (length rest) (12 + size))) [
        | inl truncated ↦ rw (long, truncated) refl
        | inr fits ↦ elim (Bool-cases (text_eq tag (codes "IEND"))) [
          | inl last ↦ rw (long, fits, last) tt
          | inr other ↦
              rw (long, fits, other)
                (go_on_with-Advances rest _ (read_chunk s tag (take size (drop 8 rest)))
                  (read_chunk_settles s tag (take size (drop 8 rest))) shorter)
        ]
      ]
]

pub Turn-cases :
    (t : Turn)
    → ((e : PngError) × (t ≡ failed e))
      ⊎ ((s : Chunks) × (t ≡ done s))
      ⊎ ((s : Chunks) × (rest : Bytes) × (t ≡ go_on s rest))
Turn-cases (failed e) = inl (e, refl)
Turn-cases (done s) = inr (inl (s, refl))
Turn-cases (go_on s rest) = inr (inr (s, rest, refl))

read_chunks_settles :
    (fuel : ℕ) (s : Chunks) (rest : Bytes)
    → length rest < fuel
    → is_stuck (read_chunks fuel s rest) ≡ false
unfolding read_chunks
read_chunks_settles zero s rest h = absurd (omega arith)
read_chunks_settles (suc fuel) s rest h = elim (Turn-cases (turn s rest)) [
  | inl (e, t) ↦ rw (t, is_stuck) (rw t at (turn-Advances s rest))
  | inr (inl (last, t)) ↦ rw (t, is_stuck) refl
  | inr (inr (next, later, t)) ↦
      let shorter : length later < length rest = rw t at (turn-Advances s rest) in
      rw (t, is_stuck) (read_chunks_settles fuel next later (omega arith))
]

unfilter_settles :
    (ftype bpp : ℕ) (line prev : Bytes) → is_stuck (unfilter ftype line prev bpp) ≡ false
unfolding unfilter
unfilter_settles ftype bpp line prev = ground arith

indexed_settles :
    (trns : Bytes) (idx : ℕ) (p : Option Pixel) → is_stuck (indexed trns idx p) ≡ false
unfolding indexed
indexed_settles trns idx none = refl
indexed_settles trns idx (some p) = refl

pixel_settles : (s : Chunks) (line : Bytes) (x : ℕ) → is_stuck (pixel s line x) ≡ false
unfolding pixel
pixel_settles s line x =
    ground (arith, indexed_settles s.trns (byte_at x line) (palette_at (byte_at x line) s.palette))

pixels_settles : (s : Chunks) (line : Bytes) (n x : ℕ) → is_stuck (pixels s line n x) ≡ false
unfolding pixels
pixels_settles s line zero x = refl
pixels_settles s line (suc n) x =
    bind-is_stuck (pixel s line x) _ (pixel_settles s line x) (λ p.
      bind-is_stuck (pixels s line n (suc x)) _ (pixels_settles s line n (suc x)) (λ ps. refl))

reject-is_stuck {ℓ} :
    {B : Type ℓ} (test : Bool) (e : PngError) (m : Coded B)
    → is_stuck (reject test e) ≡ false
    → is_stuck m ≡ false
    → is_stuck (reject test e >> m) ≡ false
reject-is_stuck test e m h k = bind-is_stuck (reject test e) _ h (λ u. k)

read_rows_settles :
    (s : Chunks) (channels n : ℕ) (raw prev : Bytes)
    → is_stuck (read_rows s channels n raw prev) ≡ false
unfolding read_rows
read_rows_settles s channels zero raw prev = refl
read_rows_settles s channels (suc n) [] prev = refl
read_rows_settles s channels (suc n) (ftype ∷ raw) prev =
    let stride = s.width * channels in
    reject-is_stuck (not (length (take stride raw) == stride)) scanline_truncated _ (ground arith) (
      bind-is_stuck (unfilter ftype (take stride raw) prev channels) _
        (unfilter_settles ftype channels (take stride raw) prev)
        (λ line. bind-is_stuck (pixels s line s.width 0) _ (pixels_settles s line s.width 0) (λ row.
          bind-is_stuck (read_rows s channels n (drop stride raw) line) _
            (read_rows_settles s channels n (drop stride raw) line) (λ rows. refl))))

read_image_settles : (z : Zlib) (s : Chunks) → is_stuck (read_image z s) ≡ false
unfolding read_image
read_image_settles z s = reject-is_stuck (not s.ihdr_seen) no_ihdr _ (ground arith) (
    bind-is_stuck (supported s.colortype (channels_of s.colortype)) _ (ground arith) (λ channels.
      bind-is_stuck (inflated (z.decompress s.idat)) _ (ground arith) (λ raw.
        reject-is_stuck (ltb (length raw) (s.height * (s.width * channels + 1))) scanline_short _
          (ground arith)
          (bind-is_stuck (read_rows s channels s.height raw (zeros (s.width * channels))) _
            (read_rows_settles s channels s.height raw (zeros (s.width * channels)))
            (λ rgba. refl)))))

-- The fuel of `decode` is enough: for every input the loop over the chunks ends by one of its own
-- exits.
pub decode-ne-out_of_fuel :
    (z : Zlib) (data_bytes : Bytes) → decode z data_bytes ≢ raises out_of_fuel
unfolding decode
decode-ne-out_of_fuel z data_bytes e =
    let settled : is_stuck (decode z data_bytes) ≡ false =
      reject-is_stuck (not (starts_with signature data_bytes)) bad_signature _ (ground arith) (
        bind-is_stuck _ _
          (read_chunks_settles _ no_chunks (drop 8 data_bytes)
            (omega (arith, length-drop 8 data_bytes)))
          (read_image_settles z)) in
    absurd (ground arith)
