-- ===== src/Prelude/Texts.antt =====
-- Text as a list of code points, with the `str` methods that the tools call.
use Prim.Native.Char.{code}
use Prim.Native.Nat.{ℕ, suc}
use Prim.Native.String.{String}
use mathlib.Core.Path.{◌≡◌, refl}
use mathlib.Core.Logic.{◌↔◌}
use mathlib.Core.Bool.{Bool, true, false, ◌&&◌, ◌||◌}
use mathlib.Core.Option.{Option, none, some}
use mathlib.Core.List.{List, [], ◌∷◌, reverse}
use native.Mathlib.Omega.{arith}
use xr_browser.Prelude.Tests.{leb, ◌==◌, if◌then◌else◌}
use xr_browser.Prelude.Lists.{any}

abbrev pub Text : Type 0
Text = List ℕ

-- The code points of a literal. `String` has its own `[]` and `∷`.
abbrev pub codes : String → Text
codes String.[] = []
codes (String.◌∷◌ c s) = code c ∷ codes s

-- s == t
unfoldable pub text_eq : Text → Text → Bool
text_eq [] [] = true
text_eq [] (d ∷ t) = false
text_eq (c ∷ s) [] = false
text_eq (c ∷ s) (d ∷ t) = c == d && text_eq s t

pub text_eq_iff : (s t : Text) → (text_eq s t ≡ true) ↔ (s ≡ t)
unfolding text_eq
text_eq_iff [] [] = ground arith
text_eq_iff [] (d ∷ t) = ground arith
text_eq_iff (c ∷ s) [] = ground arith
text_eq_iff (c ∷ s) (d ∷ t) = ground (arith, text_eq_iff s t)

pub text_eq_refl : (s : Text) → text_eq s s ≡ true
text_eq_refl s = (text_eq_iff s s).1 refl

-- t in [s1, s2, …]
abbrev pub text_mem : Text → List Text → Bool
text_mem t = any (text_eq t)

-- c in s, for one character
abbrev pub has_char : ℕ → Text → Bool
has_char c = any (λ d. c == d)

-- s.startswith(p)
unfoldable pub starts_with : Text → Text → Bool
starts_with [] s = true
starts_with (c ∷ p) [] = false
starts_with (c ∷ p) (d ∷ s) = c == d && starts_with p s

-- s.endswith(p)
unfoldable pub ends_with : Text → Text → Bool
unfolding starts_with
ends_with p s = starts_with (reverse p) (reverse s)

-- s.find(p); `none` is -1
unfoldable pub find : Text → Text → Option ℕ
unfolding starts_with
find p [] = if starts_with p [] then some 0 else none
find p (d ∷ s) =
    let later = find p s in
    if starts_with p (d ∷ s) then some 0 else elim later [ none ↦ none | some i ↦ some (suc i) ]

-- p in s
unfoldable pub has_text : Text → Text → Bool
unfolding find
has_text p s = elim (find p s) [ none ↦ false | some i ↦ true ]

-- The characters that `str.strip` removes: `str.isspace`.
abbrev pub is_space : ℕ → Bool
is_space c =
    (leb 9 c && leb c 13)
    || (leb 28 c && leb c 32)
    || (c == 133 || c == 160 || c == 0x1680)
    || (leb 0x2000 c && leb c 0x200a)
    || (c == 0x2028 || c == 0x2029 || c == 0x202f || c == 0x205f || c == 0x3000)

unfoldable pub lstrip : Text → Text
lstrip [] = []
lstrip (c ∷ s) = if is_space c then lstrip s else c ∷ s

-- s.strip()
unfoldable pub strip : Text → Text
unfolding lstrip
strip s = reverse (lstrip (reverse (lstrip s)))

-- s.split(sep), for one character
module _ (sep : ℕ) where
  unfoldable pub split_from : Text → Text → List Text
  split_from cur [] = reverse cur ∷ []
  split_from cur (c ∷ s) = elim (c == sep) [
    | true ↦ reverse cur ∷ split_from [] s
    | false ↦ split_from (c ∷ cur) s
  ]

unfoldable pub split : ℕ → Text → List Text
unfolding split_from
split sep s = split_from sep [] s

-- s.partition(sep), less the middle part: the text before the first `sep` and that after it. Where
-- there is no `sep` the second is empty.
unfoldable pub partition : ℕ → Text → Text × Text
partition sep [] = ([], [])
partition sep (c ∷ s) = if c == sep then ([], s) else (c ∷ (partition sep s).0, (partition sep s).1)

-- The characters at which `str.splitlines` ends a line; "\r\n" is one end.
abbrev pub is_line_break : ℕ → Bool
is_line_break c =
    (leb 10 c && leb c 13) || (leb 28 c && leb c 30) || (c == 133 || c == 0x2028 || c == 0x2029)

abbrev line_done : Text → List Text
line_done [] = []
line_done (c ∷ cur) = reverse (c ∷ cur) ∷ []

-- The flag tells that a carriage return came before; the second argument is the line so far,
-- reversed.
lines_from : Bool → Text → Text → List Text
lines_from after_cr cur [] = line_done cur
lines_from after_cr cur (c ∷ s) = elim (after_cr && c == 10) [
  | true ↦ lines_from false cur s
  | false ↦ elim (is_line_break c) [
    | true ↦ reverse cur ∷ lines_from (c == 13) [] s
    | false ↦ lines_from false (c ∷ cur) s
  ]
]

-- s.splitlines()
unfoldable pub split_lines : Text → List Text
unfolding lines_from
split_lines s = lines_from false [] s
