-- ===== src/ListCompiler/Cosmetic.antt =====
-- `parse_cosmetic` of xr-lists/compile.py.
pub mod Rules
pub mod Reasons
use xr_browser.Prelude.{
  String, Text, Bool, ◌||◌, none, some, List, [], ◌∷◌, any, starts_with, has_text, codes,
  if◌then◌else◌,
}
use xr_browser.ListCompiler.Reason.{scriptlet, procedural_cosmetic, malformed_domain}
use xr_browser.ListCompiler.Grammar.{filter_grammar_refusal}
use xr_browser.ListCompiler.Domains.{split_cosmetic_domains}
use xr_browser.ListCompiler.Outcome.{Action, Kind, Rule, Outcome, rule, refusal}

-- PROCEDURAL_OPS
abbrev pub procedural_ops : List String
procedural_ops =
    ":has(" ∷ ":matches-css" ∷ ":upward(" ∷ ":nth-ancestor" ∷ ":nth-ancestor(" ∷ ":remove("
    ∷ ":-abp-" ∷ ":style(" ∷ []

is_procedural : Text → Bool
is_procedural rhs = any (λ op. has_text (codes op) rhs) procedural_ops

abbrev cosmetic_rule : Action → Text → List Text × List Text → Rule
cosmetic_rule action rhs (inc, exc) = record {
  action = action;
  filter = rhs;
  kind = Kind.cosmetic;
  domains = inc;
  exclude_domains = exc;
  resource = none;
}

-- if lhs: …
scoped : Text → Text → Text → Action → List Outcome
scoped line [] rhs action = rule (cosmetic_rule action rhs ([], [])) ∷ []
scoped line (c ∷ lhs) rhs action = elim (split_cosmetic_domains (c ∷ lhs)) [
  | none ↦ refusal line malformed_domain ∷ []
  | some dom ↦ rule (cosmetic_rule action rhs dom) ∷ []
]

unfoldable pub parse_cosmetic : Text → Text → Text → Action → List Outcome
unfolding is_procedural scoped
parse_cosmetic line lhs rhs action =
    if starts_with (codes "+js(") rhs || starts_with (codes "//scriptlet") rhs
    then refusal line scriptlet ∷ []
    else if is_procedural rhs
    then refusal line procedural_cosmetic ∷ []
    else elim (filter_grammar_refusal rhs) [
      | some bad ↦ refusal line bad ∷ []
      | none ↦ scoped line lhs rhs action
    ]
