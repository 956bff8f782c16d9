-- ===== src/Png/Rows.antt =====
-- The rows that `decode` of pngcodec.py expands: their length, and the range of their bytes.
use mathlib.Core.Path.{subst}
use xr_browser.Prelude.{
  ℕ, zero, suc, ◌+◌, ◌-◌, ◌*◌, ◌^◌, ◌%◌, ◌∙◌, ◌≤◌, ◌<◌, ◌≡◌, refl, not, inl, inr, Option-cases,
  some, List, [], ◌∷◌, ◌++◌, All, All-append, length, length-append, take, drop, ltb, leb, ◌==◌,
  arith,
}
use xr_browser.Png.{Bytes, Ensures, Ensures-bind, Ensures-if, Ensures-reject, byte_at, set_byte}
use xr_browser.Png.Slices.{
  IsBytes, length-take, length-drop, All-take, All-drop, length-set_byte, set_byte-IsBytes,
  byte_at-lt,
}
use xr_browser.Png.Filter.{guess, unfilter_loop, unfilter}
use xr_browser.Png.Read.{Pixel, Chunks, channels_of, palette_at, indexed, pixel, pixels, read_rows}

-- `n` bytes.
pub record AreBytes (n : ℕ) (xs : Bytes) : Type 0 where
  pub size : length xs ≡ n
  pub bytes : IsBytes xs

pub record IsPixel (p : Pixel) : Type 0 where
  pub r : p.r < 256
  pub g : p.g < 256
  pub b : p.b < 256
  pub a : p.a < 256

pub record IsRead (s : Chunks) : Type 0 where
  pub width : s.width < 2 ^ 32
  pub height : s.height < 2 ^ 32
  pub idat : IsBytes s.idat
  pub palette : All (λ p. IsPixel p) s.palette
  pub trns : IsBytes s.trns

unfilter_loop-AreBytes :
    (predict : ℕ → Bytes → ℕ) (n i k : ℕ) (out : Bytes)
    → AreBytes k out
    → AreBytes k (unfilter_loop predict n i out)
unfolding unfilter_loop
unfilter_loop-AreBytes predict zero i k out h = h
unfilter_loop-AreBytes predict (suc n) i k out h =
    let v = (byte_at i out + predict i out) % 256 in
    unfilter_loop-AreBytes predict n (suc i) k (set_byte i v out) (record {
      size = length-set_byte i v out ∙ h.size;
      bytes = set_byte-IsBytes i v out (omega arith) h.bytes;
    })

unfilter-AreBytes :
    (ftype bpp k : ℕ) (line prev : Bytes)
    → AreBytes k line
    → Ensures (AreBytes k) (unfilter ftype line prev bpp)
unfolding unfilter
unfilter-AreBytes ftype bpp k line prev h =
    Ensures-if (AreBytes k) (ftype == 0) _ _ (λ e. h)
      (λ e.
        Ensures-if (AreBytes k) (ftype == 1) _ _
          (λ e. unfilter_loop-AreBytes (guess 1 bpp prev) (length line - bpp) bpp k line h)
          (λ e.
            Ensures-if (AreBytes k) (leb ftype 4) _ _
              (λ e.
                Ensures-reject (AreBytes k) (ltb (length prev) (length line)) _ _
                  (λ e. unfilter_loop-AreBytes (guess ftype bpp prev) (length line) 0 k line h))
              (λ e. tt)))

palette_at-IsPixel :
    (i : ℕ) (ps : List Pixel) (p : Pixel)
    → All (λ p. IsPixel p) ps
    → palette_at i ps ≡ some p
    → IsPixel p
unfolding palette_at
palette_at-IsPixel i [] p h e = cc
palette_at-IsPixel zero (q ∷ ps) p h e = let same : q ≡ p = cc in subst IsPixel same h.0
palette_at-IsPixel (suc i) (q ∷ ps) p h e = palette_at-IsPixel i ps p h.1 e

slice-AreBytes :
    (k i : ℕ) (line : Bytes)
    → IsBytes line
    → i + k ≤ length line
    → AreBytes k (take k (drop i line))
slice-AreBytes k i line h l = record {
  size = length-take k (drop i line) (omega (arith, length-drop i line));
  bytes = All-take (λ b. b < 256) k (drop i line) (All-drop (λ b. b < 256) i line h);
}

four : (r g b a : ℕ) → r < 256 → g < 256 → b < 256 → a < 256 → AreBytes 4 (r ∷ g ∷ b ∷ a ∷ [])
four r g b a hr hg hb ha = record { size = refl; bytes = (hr, (hg, (hb, (ha, tt)))) }

indexed-AreBytes :
    (trns : Bytes) (idx : ℕ) (ps : List Pixel)
    → IsBytes trns
    → All (λ p. IsPixel p) ps
    → Ensures (AreBytes 4) (indexed trns idx (palette_at idx ps))
unfolding indexed
indexed-AreBytes trns idx ps t h = elim (Option-cases (palette_at idx ps)) [
  | inl out ↦ rw out tt
  | inr (p, e) ↦
      let ok_p = palette_at-IsPixel idx ps p h e in
      rw e (four p.r p.g p.b _ ok_p.r ok_p.g ok_p.b (ground (arith, byte_at-lt idx trns t, ok_p.a)))
]

opaque : (xs : Bytes) → AreBytes 3 xs → AreBytes 4 (xs ++ 255 ∷ [])
opaque xs h = record {
  size = omega (arith, length-append xs (255 ∷ []), h.size);
  bytes = All-append (λ b. b < 256) xs (255 ∷ []) h.bytes (omega arith, tt);
}

-- A pixel of a row that is long enough for its channels.
pixel-AreBytes :
    (s : Chunks) (channels k x : ℕ) (line : Bytes)
    → IsRead s
    → channels_of s.colortype ≡ some channels
    → AreBytes k line
    → x * channels + channels ≤ k
    → Ensures (AreBytes 4) (pixel s line x)
unfolding pixel channels_of indexed
pixel-AreBytes s channels k x line read c h l =
    Ensures-if (AreBytes 4) (s.colortype == 0) _ _
      (λ e. four (g x) (g x) (g x) 255 (b x) (b x) (b x) (omega arith))
      (λ e0.
        Ensures-if (AreBytes 4) (s.colortype == 2) _ _
          (λ e.
            let n : channels ≡ 3 = ground arith in
            opaque _ (
              slice-AreBytes 3 (x * 3) line h.bytes
                (let m : x * 3 + 3 ≤ k = rw n at l in omega (arith, h.size))))
          (λ e2.
            Ensures-if (AreBytes 4) (s.colortype == 3) _ _
              (λ e. indexed-AreBytes s.trns (g x) s.palette read.trns read.palette)
              (λ e3.
                Ensures-if (AreBytes 4) (s.colortype == 4) _ _
                  (λ e.
                    four (g (x * 2)) (g (x * 2)) (g (x * 2)) (g (x * 2 + 1)) (b (x * 2)) (b (x * 2))
                      (b (x * 2)) (b (x * 2 + 1)))
                  (λ e4.
                    let n : channels ≡ 4 = ground arith in
                    slice-AreBytes 4 (x * 4) line h.bytes
                      (let m : x * 4 + 4 ≤ k = rw n at l in omega (arith, h.size))))))
  where
    g : ℕ → ℕ
    g i = byte_at i line

    b : (i : ℕ) → g i < 256
    b i = byte_at-lt i line h.bytes

joined :
    (m n k : ℕ) (xs ys : Bytes) → AreBytes m xs → AreBytes n ys → m + n ≡ k → AreBytes k (xs ++ ys)
joined m n k xs ys hx hy e = record {
  size = omega (arith, length-append xs ys, hx.size, hy.size);
  bytes = All-append (λ b. b < 256) xs ys hx.bytes hy.bytes;
}

pixels-AreBytes :
    (s : Chunks) (channels k n x : ℕ) (line : Bytes)
    → IsRead s
    → channels_of s.colortype ≡ some channels
    → AreBytes k line
    → (x + n) * channels ≤ k
    → Ensures (AreBytes (n * 4)) (pixels s line n x)
unfolding pixels
pixels-AreBytes s channels k zero x line read c h l = record { size = refl; bytes = tt }
pixels-AreBytes s channels k (suc n) x line read c h l =
    Ensures-bind (AreBytes 4) (AreBytes (suc n * 4)) (pixel s line x) _
      (pixel-AreBytes s channels k x line read c h (grind arith))
      (λ p hp.
        Ensures-bind (AreBytes (n * 4)) (AreBytes (suc n * 4)) (pixels s line n (suc x)) _
          (pixels-AreBytes s channels k n (suc x) line read c h (grind arith))
          (λ ps hps. joined 4 (n * 4) (suc n * 4) p ps hp hps (omega arith)))

pub read_rows-AreBytes :
    (s : Chunks) (channels n : ℕ) (raw prev : Bytes)
    → IsRead s
    → channels_of s.colortype ≡ some channels
    → IsBytes raw
    → Ensures (AreBytes (n * (s.width * 4))) (read_rows s channels n raw prev)
unfolding read_rows
read_rows-AreBytes s channels zero raw prev read c h = record { size = omega arith; bytes = tt }
read_rows-AreBytes s channels (suc n) [] prev read c h = tt
read_rows-AreBytes s channels (suc n) (ftype ∷ raw) prev read c h =
    let stride = s.width * channels in
    let total = suc n * (s.width * 4) in
    Ensures-reject (AreBytes total) (not (length (take stride raw) == stride)) _ _ (λ e.
      Ensures-bind (AreBytes stride) (AreBytes total)
        (unfilter ftype (take stride raw) prev channels) _
        (unfilter-AreBytes ftype channels stride (take stride raw) prev
          (record { size = ground arith; bytes = All-take (λ b. b < 256) stride raw h.1 }))
        (λ line hl.
          Ensures-bind (AreBytes (s.width * 4)) (AreBytes total) (pixels s line s.width 0) _
            (pixels-AreBytes s channels stride s.width 0 line read c hl (grind arith))
            (λ row hr.
              Ensures-bind (AreBytes (n * (s.width * 4))) (AreBytes total)
                (read_rows s channels n (drop stride raw) line) _
                (read_rows-AreBytes s channels n (drop stride raw) line read c
                  (All-drop (λ b. b < 256) stride raw h.1))
                (λ rows hs.
                  joined (s.width * 4) (n * (s.width * 4)) total row rows hr hs (grind arith)))))
