-- ===== src/ListCompiler/Tests.antt =====
-- Runs of the list compiler on lines of its kinds, and its theorems at concrete lines.
use xr_browser.Prelude.{
  ◌≢◌, ◌↔◌, ◌≤◌, List, All, some, ◌++◌, Text, map, false, ◌≡◌, refl, none, [], ◌∷◌, codes, strip,
  find, split, partition, text_eq, starts_with, ends_with, has_text, split_lines,
}
use xr_browser.ListCompiler.Reason.{
  comment, options_in_filter, empty_segment, scriptlet, preprocessor, is_listed, text,
}
use xr_browser.ListCompiler.Grammar.{
  drop_last, head_is, body_of, segment_loop, inner, filter_grammar_refusal,
}
use xr_browser.ListCompiler.Grammar.Segments.{filter_grammar_refusal-ne-empty_segment}
use xr_browser.ListCompiler.Grammar.Accepts.{Carried, filter_grammar_refusal-eq-none_iff}
use xr_browser.ListCompiler.Domains.{split_domains, split_cosmetic_domains}
use xr_browser.ListCompiler.Domains.Scoping.{Scoping, split_domains-Scoping}
use xr_browser.ListCompiler.Outcome.{Action, Kind, Rule, Refusal, rule, refused, refusal}
use xr_browser.ListCompiler.WellFormed.{LineOk}
use xr_browser.ListCompiler.Bundle.{
  CompiledRule, Key, key, key_eq, index_of, bump, tally, compile_list, tally_all, empty_table,
}
use xr_browser.ListCompiler.Bundle.Ids.{
  numbered, rules_of, outcomes_of, refusals_of, IsDistinct, compile_list_lem,
  compile_list-IsDistinct,
}
use xr_browser.ListCompiler.Bundle.Counts.{occurrences, counted, rows, tally_all-counts}
use xr_browser.ListCompiler.Network.{option_step, option_loop, finish, parse_network}
use xr_browser.ListCompiler.Cosmetic.{parse_cosmetic}
use xr_browser.ListCompiler.Network.Rules.{HasAction, parse_network_allows_iff}
use xr_browser.ListCompiler.Network.Unlisted.{parse_network_unlisted}
use xr_browser.ListCompiler.Line.Rules.{parse_line-LineOk}
use xr_browser.ListCompiler.Line.{marker_loop, parse_line}

-- Opens all that a line runs through.
line_run : Unit {0}
unfolding parse_line marker_loop parse_cosmetic parse_network option_loop option_step finish
    split_domains split_cosmetic_domains filter_grammar_refusal drop_last head_is body_of
    segment_loop inner refusal strip find split partition text_eq starts_with ends_with has_text
line_run = tt

abbrev scoped_block : Rule
scoped_block = record {
  action = Action.block;
  filter = codes "||ads.example^";
  kind = Kind.network;
  domains = codes "a.com" ∷ [];
  exclude_domains = codes "b.com" ∷ [];
  resource = none;
}

block_line : parse_line (codes " ||ads.example^$domain=a.com|~b.com ") ≡ rule scoped_block ∷ []
unfolding line_run
block_line = refl

comment_line : parse_line (codes "! text") ≡ []
unfolding line_run
comment_line = refl

exception_comment :
    parse_line (codes "@@!x") ≡ refused (record { directive = codes "@@!x"; reason = comment }) ∷ []
unfolding line_run
exception_comment = refl

cosmetic_dollar :
    parse_line (codes "##a$b")
    ≡ refused (record { directive = codes "##a$b"; reason = options_in_filter }) ∷ []
unfolding line_run
cosmetic_dollar = refl

collapsed_stars : filter_grammar_refusal (codes "||collapsed**wild.example/x") ≡ none
unfolding line_run
collapsed_stars = refl

two_lines : split_lines (codes "a\r\nb") ≡ codes "a" ∷ codes "b" ∷ []
unfolding split_lines
two_lines = refl

parse_line-LineOk_example :
    LineOk
      (codes " ||ads.example^$domain=a.com|~b.com ")
      (parse_line (codes " ||ads.example^$domain=a.com|~b.com "))
parse_line-LineOk_example = parse_line-LineOk (codes " ||ads.example^$domain=a.com|~b.com ")

parse_network_allows_iff_example :
    All
      (HasAction (starts_with (codes "@@") (codes "@@||a.b^$domain=c.d")))
      (parse_network (codes "@@||a.b^$domain=c.d"))
parse_network_allows_iff_example = parse_network_allows_iff (codes "@@||a.b^$domain=c.d")

filter_grammar_refusal-eq-none_iff_example :
    (filter_grammar_refusal (codes "||a*b^|") ≡ none) ↔ Carried (codes "||a*b^|")
filter_grammar_refusal-eq-none_iff_example = filter_grammar_refusal-eq-none_iff (codes "||a*b^|")

filter_grammar_refusal-ne-empty_segment_example :
    filter_grammar_refusal (codes "a***b") ≢ some empty_segment
filter_grammar_refusal-ne-empty_segment_example =
    filter_grammar_refusal-ne-empty_segment (codes "a***b")

abbrev three_lines : Text
three_lines = codes "||a.com^\n! text\nb.com##+js(x)\n@@||c.com^"

compile_list_lem_example :
    ((compile_list (codes "l") [] three_lines).0.rules
      ≡ numbered (codes "l") 0 (rules_of (outcomes_of (split_lines three_lines))))
    × ((compile_list (codes "l") [] three_lines).1
        ≡ refusals_of (outcomes_of (split_lines three_lines)))
compile_list_lem_example = compile_list_lem (codes "l") [] three_lines

compile_list-IsDistinct_example :
    IsDistinct (map (λ (r : CompiledRule). r.id) (compile_list (codes "l") [] three_lines).0.rules)
compile_list-IsDistinct_example = compile_list-IsDistinct (codes "l") [] three_lines

abbrev some_refusals : List Refusal
some_refusals =
    record { directive = codes "x"; reason = scriptlet }
    ∷ record { directive = codes "!#if"; reason = preprocessor }
    ∷ record { directive = codes "x"; reason = scriptlet }
    ∷ []

abbrev scriptlet_key : Key
scriptlet_key = (codes "x", codes "unsupported-directive:scriptlet")

counted_twice : counted scriptlet_key (tally_all empty_table some_refusals).agg ≡ 2
unfolding tally_all tally index_of key_eq key text bump counted line_run
counted_twice = refl

tally_all-counts_example :
    (counted scriptlet_key (tally_all empty_table some_refusals).agg
      ≡ occurrences scriptlet_key some_refusals)
    × (rows scriptlet_key (tally_all empty_table some_refusals).agg ≤ 1)
tally_all-counts_example = tally_all-counts scriptlet_key some_refusals

domains_run : split_domains (codes "a.com|~b.com") ≡ some (codes "a.com" ∷ [], codes "b.com" ∷ [])
unfolding line_run
domains_run = refl

split_domains-Scoping_example :
    Scoping (split b'|' (codes "a.com|~b.com")) (codes "a.com" ∷ []) (codes "b.com" ∷ [])
split_domains-Scoping_example =
    split_domains-Scoping (codes "a.com|~b.com") (codes "a.com" ∷ []) (codes "b.com" ∷ [])
      domains_run

parse_network_unlisted_example :
    (parse_network (codes "@@!" ++ codes "x") ≡ refusal (codes "@@!" ++ codes "x") comment ∷ [])
    × (is_listed (text comment) ≡ false)
unfolding line_run
parse_network_unlisted_example = parse_network_unlisted (codes "x") refl
