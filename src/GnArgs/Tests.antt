-- ===== src/GnArgs/Tests.antt =====
-- Argsets read from text, and merged.
use xr_browser.Prelude.{
  Text, ◌≡◌, refl, some, [], ◌∷◌, Dict, lookup, names, store, split_lines, strip, lstrip, partition,
  text_eq, codes,
}
use xr_browser.GnArgs.{
  parsed, bad, duplicate, unparseable, content, match_line, parse_lines, parse_argset,
  merge_argsets,
}
use xr_browser.GnArgs.Merged.{HasDistinct, preferred, Reported, merge_argsets_lem}
use xr_browser.GnArgs.Parsed.{flags_of, parse_argset-HasDistinct}

abbrev source : Text
source = codes "# base\nis_debug = false # note\n\nxr_x=\"a\"\n"

abbrev base : Dict Text
base = (codes "is_debug", codes "false") ∷ (codes "xr_x", codes "\"a\"") ∷ []

args_run : Unit {0}
unfolding parse_argset parse_lines content match_line split_lines strip lstrip partition store
    text_eq
args_run = tt

source_parses : parse_argset source ≡ parsed base
unfolding args_run
source_parses = refl

flag_twice : parse_argset (codes "a=1\na=2") ≡ bad (duplicate 2 (codes "a"))
unfolding args_run
flag_twice = refl

no_value : parse_argset (codes "import(x)") ≡ bad (unparseable 1 (codes "import(x)"))
unfolding args_run
no_value = refl

parse_argset-HasDistinct_example :
    HasDistinct (names base) × (flags_of (split_lines source) ≡ some base)
parse_argset-HasDistinct_example = parse_argset-HasDistinct source base source_parses

abbrev over : Dict Text
over = (codes "is_debug", codes "true") ∷ []

merge_argsets_lem_example :
    ((k : Text) → lookup k (merge_argsets base over).0 ≡ preferred (lookup k over) (lookup k base))
    × Reported base over (merge_argsets base over).1
merge_argsets_lem_example = merge_argsets_lem base over (tt, tt)
