-- ===== src/Png/RoundTrip.antt =====
-- `decode` of pngcodec.py, on what `encode` writes.
use xr_browser.Prelude.{
  starts_with, ℕ, zero, suc, ◌+◌, ◌*◌, ◌≡◌, refl, sym, ◌∙◌, ap, true, false, not, ◌||◌, some, [],
  ◌∷◌, ◌++◌, length, length-append, take, drop, ltb, ◌==◌, ==_iff, codes, text_eq, arith,
}
use xr_browser.Png.{byte_at, Bytes, Image, Zlib, ok, reject-eq-ok, bind-eq-ok, word, pack}
use xr_browser.Png.Slices.{
  take-append, drop-append, take_add, drop_add, length-take, length-drop, take_all, append-take,
}
use xr_browser.Png.Filter.{unfilter}
use xr_browser.Png.Write.{signature, raw_rows, chunk, header, encode}
use xr_browser.Png.Read.{
  read_ihdr, channels_of, zeros, Chunks, no_chunks, turn, go_on_with, go_on, done, read_chunk,
  read_chunks, pixel, pixels, read_rows, read_image, decode,
}
use xr_browser.Png.Framing.{chunk_bytes, unpack-word, pack-eq-ok, chunk-eq-ok, turn_chunk, turn_end}

length-raw_rows :
    (stride n : ℕ) (rgba : Bytes)
    → length rgba ≡ n * stride
    → length (raw_rows stride n rgba) ≡ n * (stride + 1)
unfolding raw_rows
length-raw_rows stride zero rgba h = omega arith
length-raw_rows stride (suc n) rgba h =
    let l : length (drop stride rgba) ≡ n * stride = grind (arith, length-drop stride rgba) in
    let t : length (take stride rgba) ≡ stride = length-take stride rgba (grind arith) in
    let rest = length-raw_rows stride n (drop stride rgba) l in
    grind (arith, length-append (take stride rgba) (raw_rows stride n (drop stride rgba)))

pixels_rgba :
    (s : Chunks) (line : Bytes) (n x : ℕ)
    → s.colortype ≡ 6
    → pixels s line n x ≡ ok (take (n * 4) (drop (x * 4) line))
unfolding pixels pixel
pixels_rgba s line zero x h = refl
pixels_rgba s line (suc n) x h =
    let e : suc n * 4 ≡ 4 + n * 4 = omega arith in
    let f : suc x * 4 ≡ x * 4 + 4 = omega arith in
    rw
      (
        h,
        e,
        take_add 4 (n * 4) (drop (x * 4) line),
        pixels_rgba s line n (suc x) h,
        f,
        drop_add (x * 4) 4 line,
      )
      refl

read_rows_rgba :
    (s : Chunks) (n : ℕ) (rgba prev : Bytes)
    → s.colortype ≡ 6
    → length rgba ≡ n * (s.width * 4)
    → read_rows s 4 n (raw_rows (s.width * 4) n rgba) prev ≡ ok rgba
unfolding read_rows raw_rows unfilter
read_rows_rgba s zero [] prev h l = refl
read_rows_rgba s zero (x ∷ rgba) prev h l = absurd (omega arith)
read_rows_rgba s (suc n) rgba prev h l =
    let stride = s.width * 4 in
    let t : length (take stride rgba) ≡ stride = length-take stride rgba (grind arith) in
    let r : length (drop stride rgba) ≡ n * stride = grind (arith, length-drop stride rgba) in
    let first : take stride (take stride rgba ++ raw_rows stride n (drop stride rgba))
        ≡ take stride rgba =
      rw t at (take-append (take stride rgba) (raw_rows stride n (drop stride rgba))) in
    let second : drop stride (take stride rgba ++ raw_rows stride n (drop stride rgba))
        ≡ raw_rows stride n (drop stride rgba) =
      rw t at (drop-append (take stride rgba) (raw_rows stride n (drop stride rgba))) in
    let again : take stride (take stride rgba) ≡ take stride rgba =
      rw t at (take_all (take stride rgba)) in
    let full : (stride == stride) ≡ true = (==_iff stride stride).1 refl in
    let row = pixels_rgba s (take stride rgba) s.width 0 h in
    rw
      (
        first,
        second,
        t,
        full,
        row,
        again,
        read_rows_rgba s n (drop stride rgba) (take stride rgba) h r,
        append-take stride rgba,
      )
      refl

-- The chunks of a written image, as the loop has read them.
abbrev chunks_of : Image → Bytes → Chunks
chunks_of img idat = record {
  width = img.width;
  height = img.height;
  colortype = 6;
  idat = idat;
  palette = [];
  trns = [];
  ihdr_seen = true;
}

abbrev ihdr_of : Image → Bytes
ihdr_of img = word img.width ++ (word img.height ++ 8 ∷ 6 ∷ 0 ∷ 0 ∷ 0 ∷ [])

header-eq-ok : (z : Zlib) (img : Image) (bs : Bytes) → header z img ≡ ok bs → bs ≡ ihdr_of img
unfolding header
header-eq-ok z img bs e =
    let (w, p, e1) = bind-eq-ok (pack img.width) _ e in
    let (h, q, e2) = bind-eq-ok (pack img.height) _ e1 in
    let written : w ++ (h ++ 8 ∷ 6 ∷ 0 ∷ 0 ∷ 0 ∷ []) ≡ bs = cc in
    sym written
    ∙ ap (λ x. x ++ (h ++ 8 ∷ 6 ∷ 0 ∷ 0 ∷ 0 ∷ [])) (pack-eq-ok img.width w p)
    ∙ ap (λ y. word img.width ++ (y ++ 8 ∷ 6 ∷ 0 ∷ 0 ∷ 0 ∷ [])) (pack-eq-ok img.height h q)

read_header :
    (img : Image) → read_chunk no_chunks (codes "IHDR") (ihdr_of img) ≡ ok (chunks_of img [])
unfolding read_chunk text_eq read_ihdr byte_at
read_header img = rw (unpack-word img.width, unpack-word img.height) refl

read_data :
    (img : Image) (body : Bytes)
    → read_chunk (chunks_of img []) (codes "IDAT") body ≡ ok (chunks_of img body)
unfolding read_chunk text_eq
read_data img body = refl

read_image_written :
    (z : Zlib) (img : Image)
    → z.decompress (z.compress (raw_rows (img.width * 4) img.height img.rgba))
      ≡ some (raw_rows (img.width * 4) img.height img.rgba)
    → length img.rgba ≡ img.height * (img.width * 4)
    → read_image z (chunks_of img (z.compress (raw_rows (img.width * 4) img.height img.rgba)))
      ≡ ok img
unfolding read_image channels_of
read_image_written z img inverse size =
    let raw = raw_rows (img.width * 4) img.height img.rgba in
    let long : ltb (length raw) (img.height * (img.width * 4 + 1)) ≡ false =
      ground (arith, length-raw_rows (img.width * 4) img.height img.rgba size) in
    rw
      (
        inverse,
        long,
        read_rows_rgba (chunks_of img (z.compress raw)) img.height img.rgba (zeros (img.width * 4))
            refl size,
      )
      refl

abbrev file_of : Image → Bytes → ℕ → ℕ → ℕ → Bytes
file_of img idat c1 c2 c3 =
    signature
    ++ (chunk_bytes b'I' b'H' b'D' b'R' (ihdr_of img) c1
        ++ (chunk_bytes b'I' b'D' b'A' b'T' idat c2 ++ chunk_bytes b'I' b'E' b'N' b'D' [] c3))

header_not_last : text_eq (codes "IHDR") (codes "IEND") ≡ false
unfolding text_eq
header_not_last = refl

data_not_last : text_eq (codes "IDAT") (codes "IEND") ≡ false
unfolding text_eq
data_not_last = refl

read_chunks_go_on :
    (fuel : ℕ) (s next : Chunks) (rest later : Bytes)
    → turn s rest ≡ go_on next later
    → read_chunks (suc fuel) s rest ≡ read_chunks fuel next later
unfolding read_chunks
read_chunks_go_on fuel s next rest later t = rw (t, read_chunks) refl

read_chunks_done :
    (fuel : ℕ) (s last : Chunks) (rest : Bytes)
    → turn s rest ≡ done last
    → read_chunks (suc fuel) s rest ≡ ok last
unfolding read_chunks
read_chunks_done fuel s last rest t = rw (t, read_chunks) refl

read_file :
    (img : Image) (idat : Bytes) (c1 c2 c3 fuel : ℕ)
    → read_chunks (suc (suc (suc fuel))) no_chunks (drop 8 (file_of img idat c1 c2 c3))
      ≡ ok (chunks_of img idat)
read_file img idat c1 c2 c3 fuel =
    let last = chunk_bytes b'I' b'E' b'N' b'D' [] c3 in
    let middle = chunk_bytes b'I' b'D' b'A' b'T' idat c2 in
    let first_turn =
      turn_chunk no_chunks b'I' b'H' b'D' b'R' (ihdr_of img) (middle ++ last) c1 header_not_last in
    let second_turn =
      turn_chunk (chunks_of img []) b'I' b'D' b'A' b'T' idat last c2 data_not_last in
    read_chunks_go_on (suc (suc fuel)) no_chunks (chunks_of img []) _ (middle ++ last)
      (first_turn ∙ ap (go_on_with (middle ++ last)) (read_header img))
    ∙ read_chunks_go_on (suc fuel) (chunks_of img []) (chunks_of img idat) (middle ++ last) last
        (second_turn ∙ ap (go_on_with last) (read_data img idat))
    ∙ read_chunks_done fuel (chunks_of img idat) (chunks_of img idat) last
        (turn_end (chunks_of img idat) [] [] c3)

-- What `encode` has written, where it succeeds.
record IsWritten (z : Zlib) (img : Image) (bs : Bytes) : Type 0 where
  size : length img.rgba ≡ img.height * (img.width * 4)
  c1 : ℕ
  c2 : ℕ
  c3 : ℕ
  same : bs ≡ file_of img (z.compress (raw_rows (img.width * 4) img.height img.rgba)) c1 c2 c3

encode-IsWritten : (z : Zlib) (img : Image) (bs : Bytes) → encode z img ≡ ok bs → IsWritten z img bs
unfolding encode
encode-IsWritten z img bs e =
    let idat = z.compress (raw_rows (img.width * 4) img.height img.rgba) in
    let (filled, e1) = reject-eq-ok (img.width == 0 || img.height == 0) _ _ e in
    let (whole_buffer, e2) =
      reject-eq-ok (not (length img.rgba == img.width * img.height * 4)) _ _ e1 in
    let (ihdr, h, e3) = bind-eq-ok (header z img) _ e2 in
    let (first, p, e4) = bind-eq-ok (chunk z (codes "IHDR") ihdr) _ e3 in
    let (middle, q, e5) = bind-eq-ok (chunk z (codes "IDAT") idat) _ e4 in
    let (last, r, e6) = bind-eq-ok (chunk z (codes "IEND") []) _ e5 in
    let c1 = z.crc32 (codes "IHDR" ++ ihdr) in
    let c2 = z.crc32 (codes "IDAT" ++ idat) in
    let c3 = z.crc32 (codes "IEND") in
    let written : signature ++ (first ++ (middle ++ last)) ≡ bs = cc in
    record {
      size = grind arith;
      c1 = c1;
      c2 = c2;
      c3 = c3;
      same =
          sym written
          ∙ ap (λ x. signature ++ (x ++ (middle ++ last)))
              (chunk-eq-ok z b'I' b'H' b'D' b'R' ihdr first p)
          ∙ ap (λ x. signature ++ (chunk_bytes b'I' b'H' b'D' b'R' x c1 ++ (middle ++ last)))
              (header-eq-ok z img ihdr h)
          ∙ ap (λ x. signature ++ (chunk_bytes b'I' b'H' b'D' b'R' (ihdr_of img) c1 ++ (x ++ last)))
              (chunk-eq-ok z b'I' b'D' b'A' b'T' idat middle q)
          ∙ ap
              (λ x.
                signature
                ++ (chunk_bytes b'I' b'H' b'D' b'R' (ihdr_of img) c1
                    ++ (chunk_bytes b'I' b'D' b'A' b'T' idat c2 ++ x)))
              (chunk-eq-ok z b'I' b'E' b'N' b'D' [] last r);
    }

-- Where zlib restores what it has compressed, an image that `encode` writes is the one that
-- `decode` reads from the bytes written.
pub decode-encode :
    (z : Zlib) (img : Image) (data_bytes : Bytes)
    → ((raw : Bytes) → z.decompress (z.compress raw) ≡ some raw)
    → encode z img ≡ ok data_bytes
    → decode z data_bytes ≡ ok img
unfolding decode starts_with
decode-encode z img data_bytes inverse e =
    let idat = z.compress (raw_rows (img.width * 4) img.height img.rgba) in
    let w = encode-IsWritten z img data_bytes e in
    rw (w.same, read_file img idat w.c1 w.c2 w.c3 _) (read_image_written z img (inverse _) w.size)
