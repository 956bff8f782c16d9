-- ===== src/GnArgs.antt =====
-- build/gn/resolve_args.py: argsets, their merge and the allowlist.
pub mod Merged
pub mod Parsed
mod Tests
use xr_browser.Prelude.{
  ℕ, ◌+◌, Text, Bool, true, false, not, ◌&&◌, ◌||◌, Option, none, some, List, [], ◌∷◌, ◌++◌, ◌==◌,
  leb, is_empty, is_space, is_ascii_digit, lstrip, strip, partition, split_lines, text_eq, text_mem,
  Dict, lookup, names, store, if◌then◌else◌,
}

-- [A-Za-z_]
name_start : ℕ → Bool
name_start c = (leb b'A' c && leb c b'Z') || (leb b'a' c && leb c b'z') || c == b'_'

-- [A-Za-z0-9_]
name_part : ℕ → Bool
name_part c = name_start c || is_ascii_digit c

-- The longest prefix of name characters, and what is left.
span_name : Text → Text × Text
span_name [] = ([], [])
span_name (c ∷ s) =
    let (name, rest) = span_name s in if name_part c then (c ∷ name, rest) else ([], c ∷ s)

-- What follows the name: spaces, "=", and the value, stripped.
value_of : Text → Option Text
value_of [] = none
value_of (c ∷ s) = if c == b'=' then some (strip s) else none

named : Text × Text → Option (Text × Text)
named (name, rest) = elim (value_of (lstrip rest)) [ none ↦ none | some v ↦ some (name, v) ]

-- KV_RE.match(line): the name and the stripped value
unfoldable pub match_line : Text → Option (Text × Text)
unfolding name_start name_part span_name value_of named
match_line [] = none
match_line (c ∷ s) = if name_start c then named (span_name (c ∷ s)) else none

pub data ArgError : Type 0 where
  unparseable : ℕ → Text → ArgError
  duplicate : ℕ → Text → ArgError

pub data ParsedArgs : Type 0 where
  parsed : Dict Text → ParsedArgs
  bad : ArgError → ParsedArgs

-- raw.split("#", 1)[0].strip()
unfoldable pub content : Text → Text
content raw = strip (partition b'#' raw).0

-- The loop over the numbered lines.
unfoldable pub parse_lines : ℕ → List Text → Dict Text → ParsedArgs
parse_lines n [] out = parsed out
parse_lines n (raw ∷ raws) out = elim (is_empty (content raw)) [
  | true ↦ parse_lines (n + 1) raws out
  | false ↦ elim (match_line (content raw)) [
    | none ↦ bad (unparseable n raw)
    | some (name, value) ↦ elim (text_mem name (names out)) [
      | true ↦ bad (duplicate n name)
      | false ↦ parse_lines (n + 1) raws (store name value out)
    ]
  ]
]

unfoldable pub parse_argset : Text → ParsedArgs
parse_argset text = parse_lines 1 (split_lines text) []

-- A row of the list of overrides.
pub record Override : Type 0 where
  pub flag : Text
  pub base : Text
  pub override : Text

-- k in merged and merged[k] != v
unfoldable pub overridden : Text → Text → Option Text → List Override
overridden k v none = []
overridden k v (some old) =
    if text_eq old v then [] else record { flag = k; base = old; override = v } ∷ []

-- The loop over the overriding flags.
unfoldable pub merge_loop : Dict Text → List Override → Dict Text → Dict Text × List Override
merge_loop merged overrides [] = (merged, overrides)
merge_loop merged overrides ((k, v) ∷ over) =
    merge_loop (store k v merged) (overrides ++ overridden k v (lookup k merged)) over

unfoldable pub merge_argsets : Dict Text → Dict Text → Dict Text × List Override
merge_argsets common over = merge_loop common [] over

-- validate: the flags that are not in the allowlist
unfoldable pub not_allowed : List Text → List Text → List Text
not_allowed [] allowlist = []
not_allowed (name ∷ merged) allowlist =
    let rest = not_allowed merged allowlist in if text_mem name allowlist then rest else name ∷ rest
