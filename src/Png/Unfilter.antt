-- ===== src/Png/Unfilter.antt =====
-- `_unfilter` of pngcodec.py, against the filters of the PNG specification, and what it keeps.
use xr_browser.Prelude.{
  ==_iff, ℕ, zero, suc, ◌+◌, ◌-◌, ◌%◌, ◌≤◌, ◌<◌, ◌≡◌, refl, ◌∙◌, ap, Bool-cases, inl, inr, length,
  leb, ◌==◌, arith,
}
use xr_browser.Png.{Bytes, ok, byte_at, set_byte}
use xr_browser.Png.Filter.{guess, unfilter_loop, unfilter}
use xr_browser.Png.Slices.{
  IsBytes, length-set_byte, byte_at-set_byte, byte_at-set_byte_other, byte_at_ext, byte_at-lt,
}
use xr_browser.Png.Specified.{
  prediction, filter_row, prediction-guess, length-filter_from, byte_at-filter_from,
}

-- Agreement below `i`.
abbrev Agrees : ℕ → Bytes → Bytes → Type 0
Agrees i out orig = (j : ℕ) → j < i → byte_at j out ≡ byte_at j orig

-- Restoring a byte undoes its filter.
restored : (x g : ℕ) → x < 256 → ((x + (256 - g % 256)) % 256 + g) % 256 ≡ x
restored x g h = omega arith

-- A guess that reads, from `start` on, only the bytes before its own.
module _ (predict : ℕ → Bytes → ℕ) (start : ℕ) (orig : Bytes) (bytes : IsBytes orig)
    (local : (i : ℕ) (out : Bytes)
      → start ≤ i
      → Agrees i out orig
      → predict i out ≡ predict i orig) where
  abbrev Filtered : ℕ → Bytes → Type 0
  Filtered i out =
      (j : ℕ)
      → i ≤ j
      → j < length orig
      → byte_at j out ≡ (byte_at j orig + (256 - predict j orig % 256)) % 256

  -- The byte that a round writes.
  abbrev written : ℕ → Bytes → ℕ
  written i out = (byte_at i out + predict i out) % 256

  written_orig :
      (i : ℕ) (out : Bytes)
      → start ≤ i
      → i < length orig
      → Agrees i out orig
      → Filtered i out
      → written i out ≡ byte_at i orig
  written_orig i out s h done todo =
      rw (local i out s done, todo i (omega arith) h)
        (restored (byte_at i orig) (predict i orig) (byte_at-lt i orig bytes))

  Agrees-suc :
      (i v : ℕ) (out : Bytes)
      → i < length out
      → v ≡ byte_at i orig
      → Agrees i out orig
      → Agrees (suc i) (set_byte i v out) orig
  Agrees-suc i v out h e done j l = elim (Bool-cases (j == i)) [
    | inl same ↦ let j_i : j ≡ i = (==_iff j i).0 same in rw j_i (byte_at-set_byte i v out h ∙ e)
    | inr other ↦
        byte_at-set_byte_other i j v out (λ e. absurd (ground arith)) ∙ done j (ground arith)
  ]

  unfilter_loop_restores :
      (n i : ℕ) (out : Bytes)
      → start ≤ i
      → length out ≡ length orig
      → i + n ≡ length orig
      → Agrees i out orig
      → Filtered i out
      → unfilter_loop predict n i out ≡ orig
  unfolding unfilter_loop
  unfilter_loop_restores zero i out s same end done todo =
      byte_at_ext out orig same (λ j l. done j (omega arith))
  unfilter_loop_restores (suc n) i out s same end done todo =
      let v = written i out in
      let next = set_byte i v out in
      let now = written_orig i out s (omega arith) done todo in
      unfilter_loop_restores n (suc i) next (omega arith) (length-set_byte i v out ∙ same)
        (omega arith) (Agrees-suc i v out (omega arith) now done)
        (λ j l m.
          byte_at-set_byte_other i j v out (λ e. absurd (omega arith)) ∙ todo j (omega arith) m)

guess_local :
    (ftype bpp i : ℕ) (prev out orig : Bytes)
    → 0 < bpp
    → (ftype ≡ 1 → bpp ≤ i)
    → Agrees i out orig
    → guess ftype bpp prev i out ≡ guess ftype bpp prev i orig
unfolding guess
guess_local ftype bpp i prev out orig b first done = ground (arith, done (i - bpp))

module _ (ftype bpp : ℕ) (prev orig : Bytes) where
  abbrev row : Bytes
  row = filter_row ftype bpp prev orig

  pub length-filter_row : length row ≡ length orig
  unfolding filter_row
  length-filter_row = length-filter_from ftype bpp prev orig (length orig) 0

  byte_at-filter_row :
      (j : ℕ)
      → j < length orig
      → byte_at j row ≡ (byte_at j orig + (256 - prediction ftype bpp prev j orig % 256)) % 256
  unfolding filter_row
  byte_at-filter_row j h =
      let e : 0 + j ≡ j = omega arith in
      rw e at (byte_at-filter_from ftype bpp prev orig (length orig) 0 j h)

  -- Where nothing is predicted, the filter keeps the byte.
  kept :
      (j : ℕ)
      → j < length orig
      → IsBytes orig
      → prediction ftype bpp prev j orig ≡ 0
      → byte_at j row ≡ byte_at j orig
  kept j h bytes e =
      let p = prediction ftype bpp prev j orig in
      omega (arith, byte_at-filter_row j h, byte_at-lt j orig bytes)

-- Where the code's guess is the prediction.
guessed :
    (ftype bpp j : ℕ) (prev orig : Bytes)
    → 2 ≤ ftype
    → (byte_at j orig + (256 - prediction ftype bpp prev j orig % 256)) % 256
      ≡ (byte_at j orig + (256 - guess ftype bpp prev j orig % 256)) % 256
guessed ftype bpp j prev orig t =
    ap (λ g. (byte_at j orig + (256 - g % 256)) % 256) (prediction-guess ftype bpp prev j orig t)

guessed_sub :
    (bpp j : ℕ) (prev orig : Bytes)
    → bpp ≤ j
    → (byte_at j orig + (256 - prediction 1 bpp prev j orig % 256)) % 256
      ≡ (byte_at j orig + (256 - guess 1 bpp prev j orig % 256)) % 256
unfolding guess prediction
guessed_sub bpp j prev orig l = ground arith

unfilter_none : (bpp : ℕ) (prev orig : Bytes) → IsBytes orig → filter_row 0 bpp prev orig ≡ orig
unfolding prediction
unfilter_none bpp prev orig bytes =
    byte_at_ext _ orig (length-filter_row 0 bpp prev orig)
      (λ j l. kept 0 bpp prev orig j l bytes refl)

unfilter_sub :
    (bpp : ℕ) (prev orig : Bytes)
    → 0 < bpp
    → IsBytes orig
    → unfilter_loop (guess 1 bpp prev) (length orig - bpp) bpp (filter_row 1 bpp prev orig) ≡ orig
unfolding unfilter_loop prediction
unfilter_sub bpp prev orig b bytes = elim (Bool-cases (leb bpp (length orig))) [
  | inl within ↦
      unfilter_loop_restores (guess 1 bpp prev) bpp orig bytes
        (λ i out s done. guess_local 1 bpp i prev out orig b (λ e. s) done) (length orig - bpp) bpp
        (filter_row 1 bpp prev orig) (omega arith) (length-filter_row 1 bpp prev orig)
        (ground arith) (λ j l. kept 1 bpp prev orig j (ground arith) bytes (ground arith))
        (λ j l m. byte_at-filter_row 1 bpp prev orig j m ∙ guessed_sub bpp j prev orig l)
  | inr beyond ↦
      let none_left : length orig - bpp ≡ 0 = ground arith in
      rw none_left (
        byte_at_ext _ orig (length-filter_row 1 bpp prev orig)
          (λ j l. kept 1 bpp prev orig j l bytes (ground arith)))
]

unfilter_whole :
    (ftype bpp : ℕ) (prev orig : Bytes)
    → 2 ≤ ftype
    → 0 < bpp
    → IsBytes orig
    → unfilter_loop (guess ftype bpp prev) (length orig) 0 (filter_row ftype bpp prev orig) ≡ orig
unfilter_whole ftype bpp prev orig t b bytes =
    unfilter_loop_restores (guess ftype bpp prev) 0 orig bytes
      (λ i out s done. guess_local ftype bpp i prev out orig b (λ e. absurd (omega arith)) done)
      (length orig) 0 (filter_row ftype bpp prev orig) (omega arith)
      (length-filter_row ftype bpp prev orig) (omega arith) (λ j l. absurd (omega arith))
      (λ j l m. byte_at-filter_row ftype bpp prev orig j m ∙ guessed ftype bpp j prev orig t)

-- On bytes and a row above of the same length, `_unfilter` undoes each of the five filters of the
-- specification, for every distance of one byte or more between pixels.
pub unfilter-filter_row :
    (ftype bpp : ℕ) (prev orig : Bytes)
    → ftype < 5
    → 0 < bpp
    → length prev ≡ length orig
    → IsBytes orig
    → unfilter ftype (filter_row ftype bpp prev orig) prev bpp ≡ ok orig
unfolding unfilter
unfilter-filter_row zero bpp prev orig t b same bytes = ap ok (unfilter_none bpp prev orig bytes)
unfilter-filter_row (suc zero) bpp prev orig t b same bytes =
    rw (length-filter_row 1 bpp prev orig) (ap ok (unfilter_sub bpp prev orig b bytes))
unfilter-filter_row (suc (suc f)) bpp prev orig t b same bytes = ground (
  arith,
  length-filter_row (suc (suc f)) bpp prev orig,
  unfilter_whole (suc (suc f)) bpp prev orig (omega arith) b bytes,
)
