-- ===== src/Png/Framing.antt =====
-- A chunk that `_chunk` of pngcodec.py writes, and the round of `decode` that reads it.
use xr_browser.Prelude.{
  ℕ, ◌+◌, ◌≡◌, refl, sym, ◌∙◌, ap, true, false, [], ◌∷◌, ◌++◌, append_assoc, length, length-append,
  take, drop, ltb, leb, codes, text_eq, arith,
}
use xr_browser.Png.{Bytes, Zlib, ok, bind-eq-ok, word, pack, unpack}
use xr_browser.Png.Slices.{take-append, drop-append}
use xr_browser.Png.Write.{chunk}
use xr_browser.Png.Read.{Chunks, turn, go_on_with, done, read_chunk}

pub unpack-word : (n : ℕ) → unpack (word n) ≡ n
unpack-word n = omega arith

pub pack-eq-ok : (n : ℕ) (bs : Bytes) → pack n ≡ ok bs → bs ≡ word n
pack-eq-ok n bs e = ground arith

-- The bytes of a chunk with the tag `a b c d` and a checksum.
abbrev pub chunk_bytes : ℕ → ℕ → ℕ → ℕ → Bytes → ℕ → Bytes
chunk_bytes a b c d body crc = word (length body) ++ (a ∷ b ∷ c ∷ d ∷ (body ++ word crc))

pub chunk-eq-ok :
    (z : Zlib) (a b c d : ℕ) (body bs : Bytes)
    → chunk z (a ∷ b ∷ c ∷ d ∷ []) body ≡ ok bs
    → bs ≡ chunk_bytes a b c d body (z.crc32 (a ∷ b ∷ c ∷ d ∷ body))
unfolding chunk
chunk-eq-ok z a b c d body bs e =
    let (size, p, e1) = bind-eq-ok (pack (length body)) _ e in
    let (crc, q, e2) = bind-eq-ok (pack (z.crc32 (a ∷ b ∷ c ∷ d ∷ body))) _ e1 in
    let written : size ++ (a ∷ b ∷ c ∷ d ∷ (body ++ crc)) ≡ bs = cc in
    sym written
    ∙ ap (λ x. x ++ (a ∷ b ∷ c ∷ d ∷ (body ++ crc))) (pack-eq-ok (length body) size p)
    ∙ ap (λ y. word (length body) ++ (a ∷ b ∷ c ∷ d ∷ (body ++ y)))
        (pack-eq-ok (z.crc32 (a ∷ b ∷ c ∷ d ∷ body)) crc q)

-- The tests of a round on a chunk that is whole.
record IsWhole (a b c d : ℕ) (body more : Bytes) (crc : ℕ) : Type 0 where
  starts : leb 8 (length (chunk_bytes a b c d body crc ++ more)) ≡ true
  fits : ltb (length (chunk_bytes a b c d body crc ++ more)) (12 + length body) ≡ false
  body_is : take (length body) (body ++ word crc ++ more) ≡ body
  more_is : drop 4 (drop (length body) (body ++ word crc ++ more)) ≡ more

whole : (a b c d : ℕ) (body more : Bytes) (crc : ℕ) → IsWhole a b c d body more crc
whole a b c d body more crc = record {
  starts = ground arith;
  fits = ground (arith, length-append (body ++ word crc) more, length-append body (word crc));
  body_is = rw (append_assoc body (word crc) more) (take-append body (word crc ++ more));
  more_is =
      rw (append_assoc body (word crc) more) (ap (drop 4) (drop-append body (word crc ++ more)));
}

pub turn_chunk :
    (s : Chunks) (a b c d : ℕ) (body more : Bytes) (crc : ℕ)
    → text_eq (a ∷ b ∷ c ∷ d ∷ []) (codes "IEND") ≡ false
    → turn s (chunk_bytes a b c d body crc ++ more)
      ≡ go_on_with more (read_chunk s (a ∷ b ∷ c ∷ d ∷ []) body)
unfolding turn
turn_chunk s a b c d body more crc other =
    let w = whole a b c d body more crc in
    rw (unpack-word (length body), w.starts, w.fits, other, w.body_is, w.more_is) refl

pub turn_end :
    (s : Chunks) (body more : Bytes) (crc : ℕ)
    → turn s (chunk_bytes b'I' b'E' b'N' b'D' body crc ++ more) ≡ done s
unfolding turn text_eq
turn_end s body more crc =
    let w = whole b'I' b'E' b'N' b'D' body more crc in
    rw (unpack-word (length body), w.starts, w.fits) refl
