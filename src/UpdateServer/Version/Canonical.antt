-- ===== src/UpdateServer/Version/Canonical.antt =====
-- The texts that `parse_version` accepts.
use xr_browser.Prelude.{
  ℕ, ◌≤◌, Text, true, false, ◌≡◌, ◌↔◌, refl, sym, ap, ◌∙◌, List, [], ◌∷◌, ◌++◌, all, append-nil,
  all-append, ltb, decimal, decimal-digits, is_ascii_digit, has_char, split, join, join-split,
  split_part, split_lacking, arith,
}
use xr_browser.UpdateServer.Platform.{Platform, KnowsAscii}
use xr_browser.UpdateServer.Version.{Parsed, Version, parse_part, parse_parts, parse_version}
use xr_browser.UpdateServer.Version.Parts.{parse_part_sound, parse_part-decimal}

-- "M.m.b.p"
pub print_version : Version → Text
print_version v =
    decimal v.major
    ++ (b'.' ∷ (decimal v.minor ++ (b'.' ∷ (decimal v.build ++ (b'.' ∷ decimal v.patch)))))

-- Every component fits 16 bits.
pub record IsInRange (v : Version) : Type 0 where
  pub major : v.major ≤ 65535
  pub minor : v.minor ≤ 65535
  pub build : v.build ≤ 65535
  pub patch : v.patch ≤ 65535

abbrev pub IsAscii : Text → Type 0
IsAscii t = all (λ c. ltb c 128) t ≡ true

undotted : (s : Text) → all is_ascii_digit s ≡ true → has_char b'.' s ≡ false
undotted [] h = refl
undotted (c ∷ s) h = ground (arith, undotted s)

undotted_decimal : (n : ℕ) → has_char b'.' (decimal n) ≡ false
undotted_decimal n = undotted (decimal n) (decimal-digits n)

split-print_version :
    (v : Version)
    → split b'.' (print_version v)
      ≡ decimal v.major ∷ decimal v.minor ∷ decimal v.build ∷ decimal v.patch ∷ []
unfolding print_version
split-print_version v = simp (
  split_part b'.' (decimal v.major) _ (undotted_decimal v.major),
  split_part b'.' (decimal v.minor) _ (undotted_decimal v.minor),
  split_part b'.' (decimal v.build) _ (undotted_decimal v.build),
  split_lacking b'.' (decimal v.patch) (undotted_decimal v.patch),
)

IsAscii-parts :
    (a b c d : Text)
    → IsAscii (a ++ (b'.' ∷ (b ++ (b'.' ∷ (c ++ (b'.' ∷ (d ++ [])))))))
    → IsAscii a × IsAscii b × IsAscii c × IsAscii d
IsAscii-parts a b c d h = ground (
  arith,
  all-append (λ x. ltb x 128) a (b'.' ∷ (b ++ (b'.' ∷ (c ++ (b'.' ∷ (d ++ [])))))),
  all-append (λ x. ltb x 128) b (b'.' ∷ (c ++ (b'.' ∷ (d ++ [])))),
  all-append (λ x. ltb x 128) c (b'.' ∷ (d ++ [])),
  all-append (λ x. ltb x 128) d [],
)

module _ (p : Platform) (k : KnowsAscii p) where
  complete : (v : Version) → IsInRange v → parse_version p (print_version v) ≡ Parsed.value v
  unfolding parse_version parse_parts
  complete v r = rw (split-print_version v) (
      rw
        (
          parse_part-decimal p k v.major r.major,
          parse_part-decimal p k v.minor r.minor,
          parse_part-decimal p k v.build r.build,
          parse_part-decimal p k v.patch r.patch,
        )
        refl)

  parsed_parts :
      (a b c d : Text) (v : Version)
      → parse_parts p (a ∷ b ∷ c ∷ d ∷ []) ≡ Parsed.value v
      → (parse_part p a ≡ Parsed.value v.major)
        × (parse_part p b ≡ Parsed.value v.minor)
        × (parse_part p c ≡ Parsed.value v.build)
        × (parse_part p d ≡ Parsed.value v.patch)
  unfolding parse_parts
  parsed_parts a b c d v e = ground arith

  sound_parts :
      (parts : List Text) (v : Version)
      → IsAscii (join b'.' parts)
      → parse_parts p parts ≡ Parsed.value v
      → (join b'.' parts ≡ print_version v) × IsInRange v
  unfolding parse_parts join print_version
  sound_parts (a ∷ b ∷ c ∷ d ∷ []) v h e =
      let (ea, eb, ec, ed) = parsed_parts a b c d v e in
      let (ha, hb, hc, hd) = IsAscii-parts a b c d h in
      let (sa, ra) = parse_part_sound p k a v.major ha ea in
      let (sb, rb) = parse_part_sound p k b v.minor hb eb in
      let (sc, rc) = parse_part_sound p k c v.build hc ec in
      let (sd, rd) = parse_part_sound p k d v.patch hd ed in
      (
        rw (append-nil d, sa, sb, sc, sd) refl,
        record { major = ra; minor = rb; build = rc; patch = rd },
      )
  sound_parts (a ∷ b ∷ c ∷ d ∷ x ∷ parts) v h e = cc
  sound_parts _ v h e = cc

  sound :
      (t : Text) (v : Version)
      → IsAscii t
      → parse_version p t ≡ Parsed.value v
      → (t ≡ print_version v) × IsInRange v
  unfolding parse_version
  sound t v h e =
      let (same, r) = sound_parts (split b'.' t) v (rw join-split h) e in
      (sym (join-split b'.' t) ∙ same, r)

  -- An ASCII text parses as a version exactly if it is the printed version, and each of the four
  -- components is at most 65535.
  pub parse_version-eq-value_iff :
      (t : Text) (v : Version)
      → IsAscii t
      → (parse_version p t ≡ Parsed.value v) ↔ ((t ≡ print_version v) × IsInRange v)
  parse_version-eq-value_iff t v h = (sound t v h, λ (e, r). ap (parse_version p) e ∙ complete v r)
