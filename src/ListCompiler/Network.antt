-- ===== src/ListCompiler/Network.antt =====
-- `parse_network` of xr-lists/compile.py.
pub mod Rules
pub mod Reasons
pub mod Unlisted
use xr_browser.Prelude.{
  Text, Bool, true, false, ◌||◌, not, none, some, List, [], ◌∷◌, ◌++◌, is_empty, text_eq, has_char,
  starts_with, split, partition, drop, codes, if◌then◌else◌,
}
use xr_browser.ListCompiler.Reason.{
  Reason, malformed_empty_name, malformed_domain, malformed_redirect, redirect_on_exception,
  unsupported_option,
}
use xr_browser.ListCompiler.Grammar.{filter_grammar_refusal}
use xr_browser.ListCompiler.Domains.{split_domains}
use xr_browser.ListCompiler.Outcome.{Action, Kind, Rule, Outcome, rule, refusal}

-- The variables of the loop over the options.
pub record Options : Type 0 where
  pub domains : List Text
  pub excludes : List Text
  pub redirect_to : Text
  pub refusals : List Outcome

abbrev pub no_options : Options
no_options = record { domains = []; excludes = []; redirect_to = []; refusals = [] }

abbrev refuse : Text → Reason → Options → Options
refuse line reason o = record o { refusals = o.refusals ++ refusal line reason ∷ [] }

-- name == "domain"
domain_option : Text → Text → Options → Options
domain_option line value o =
    if is_empty value then refuse line malformed_domain o else elim (split_domains value) [
      | none ↦ refuse line malformed_domain o
      | some (inc, exc) ↦ record o { domains = o.domains ++ inc; excludes = o.excludes ++ exc }
    ]

-- name == "redirect"
redirect_option : Text → Bool → Text → Options → Options
redirect_option line exception value o =
    if exception
    then refuse line redirect_on_exception o
    else if is_empty value
    then refuse line malformed_redirect o
    else record o { redirect_to = value }

-- One round of the loop.
unfoldable pub option_step : Text → Bool → Text × Text → Options → Options
unfolding domain_option redirect_option
option_step line exception (name, value) o =
    if is_empty name
    then refuse line malformed_empty_name o
    else if text_eq name (codes "domain")
    then domain_option line value o
    else if text_eq name (codes "redirect")
    then redirect_option line exception value o
    else refuse line (unsupported_option name) o

unfoldable pub option_loop : Text → Bool → List Text → Options → Options
option_loop line exception [] o = o
option_loop line exception (opt ∷ opts) o =
    option_loop line exception opts (option_step line exception (partition b'=' opt) o)

abbrev network_rule : Bool → Text → Options → Rule
network_rule exception filt o = record {
  action = if exception then Action.allow else Action.block;
  filter = filt;
  kind = Kind.network;
  domains = o.domains;
  exclude_domains = o.excludes;
  resource = none;
}

abbrev redirect_rule : Text → Options → Rule
redirect_rule filt o = record {
  action = Action.redirect;
  filter = filt;
  kind = Kind.redirect;
  domains = o.domains;
  exclude_domains = o.excludes;
  resource = some o.redirect_to;
}

-- What follows the loop.
unfoldable pub finish : Text → Bool → Text → Options → List Outcome
finish line exception filt o =
    if not (is_empty o.refusals) then o.refusals else elim (filter_grammar_refusal filt) [
      | some bad ↦ refusal line bad ∷ []
      | none ↦
          if not (is_empty o.redirect_to)
          then rule (redirect_rule filt o) ∷ []
          else rule (network_rule exception filt o) ∷ []
    ]

-- The options behind the first "$", run through the loop.
options_of : Text → Bool → Text → Options
options_of line exception opts_raw =
    if not (is_empty opts_raw) || has_char b'$' line
    then option_loop line exception (split b',' opts_raw) no_options
    else no_options

-- The line without its "@@".
network_parts : Text → Bool → Text → List Outcome
network_parts line exception filt =
    let (front, opts_raw) = partition b'$' filt in
    finish line exception front (options_of line exception opts_raw)

unfoldable pub parse_network : Text → List Outcome
unfolding options_of network_parts
parse_network line =
    if starts_with (codes "@@") line
    then network_parts line true (drop 2 line)
    else network_parts line false line
