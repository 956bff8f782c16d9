-- ===== src/ListCompiler/Network/Rules.antt =====
-- The rules and refusals of `parse_network`.
use xr_browser.Prelude.{
  Text, Bool, true, false, not, ◌≡◌, refl, ap, none, List, [], ◌∷◌, is_empty, ◌||◌, ◌↔◌, All,
  All-append, split, partition, starts_with, drop, has_char, text_eq, arith, Bool-cases,
  Option-cases, inl, inr, codes,
}
use xr_browser.ListCompiler.Reason.{
  Reason, malformed_domain, malformed_redirect, redirect_on_exception, malformed_empty_name,
  unsupported_option,
}
use xr_browser.ListCompiler.Grammar.{filter_grammar_refusal}
use xr_browser.ListCompiler.Domains.{split_domains}
use xr_browser.ListCompiler.Domains.Scoping.{IsFilled, Scoping-IsFilled, split_domains-Scoping}
use xr_browser.ListCompiler.Outcome.{Action, Outcome, rule, refused, refusal}
use xr_browser.ListCompiler.WellFormed.{
  IsBundleRule, OutcomeOk, IsRefused, IsWhole, LineOk, refusal-OutcomeOk, refusal-IsRefused,
  refusal-LineOk,
}
use xr_browser.ListCompiler.Network.{
  Options, no_options, refuse, domain_option, redirect_option, option_step, option_loop,
  redirect_rule, network_rule, finish, options_of, network_parts, parse_network,
}

-- The invariant of the loop over a network filter's options.
record OptionsOk (line : Text) (exception : Bool) (o : Options) : Type 0 where
  domains : All IsFilled o.domains
  excludes : All IsFilled o.excludes
  redirect : exception ≡ true → o.redirect_to ≡ []
  directives : All (OutcomeOk line) o.refusals
  refusals : All IsRefused o.refusals

module _ (line : Text) (exception : Bool) where
  refuse-OptionsOk :
      (reason : Reason) (o : Options)
      → OptionsOk line exception o
      → OptionsOk line exception (refuse line reason o)
  refuse-OptionsOk reason o k = record {
    domains = k.domains;
    excludes = k.excludes;
    redirect = k.redirect;
    directives =
        All-append (OutcomeOk line) o.refusals _ k.directives (refusal-OutcomeOk line reason, tt);
    refusals = All-append IsRefused o.refusals _ k.refusals (refusal-IsRefused line reason, tt);
  }

  domain_option-OptionsOk :
      (value : Text) (o : Options)
      → OptionsOk line exception o
      → OptionsOk line exception (domain_option line value o)
  unfolding domain_option
  domain_option-OptionsOk value o k = elim (Bool-cases (is_empty value)) [
    | inl bare ↦ rw bare (refuse-OptionsOk malformed_domain o k)
    | inr filled ↦ elim (Option-cases (split_domains value)) [
      | inl bad ↦ rw (filled, bad) (refuse-OptionsOk malformed_domain o k)
      | inr ((inc, exc), good) ↦
          let (inc_filled, exc_filled) =
            Scoping-IsFilled (split_domains-Scoping value inc exc good) in
          rw (filled, good)
            (record {
              domains = All-append IsFilled o.domains inc k.domains inc_filled;
              excludes = All-append IsFilled o.excludes exc k.excludes exc_filled;
              redirect = k.redirect;
              directives = k.directives;
              refusals = k.refusals;
            })
    ]
  ]

redirect_option-OptionsOk :
    (line : Text) (exception : Bool) (value : Text) (o : Options)
    → OptionsOk line exception o
    → OptionsOk line exception (redirect_option line exception value o)
unfolding redirect_option
redirect_option-OptionsOk line true value o k = refuse-OptionsOk line true redirect_on_exception o k
redirect_option-OptionsOk line false value o k = elim (Bool-cases (is_empty value)) [
  | inl bare ↦ rw bare (refuse-OptionsOk line false malformed_redirect o k)
  | inr filled ↦ rw filled (record {
    domains = k.domains;
    excludes = k.excludes;
    redirect = λ e. cc;
    directives = k.directives;
    refusals = k.refusals;
  })
]

module _ (line : Text) (exception : Bool) where
  option_step-OptionsOk :
      (name value : Text) (o : Options)
      → OptionsOk line exception o
      → OptionsOk line exception (option_step line exception (name, value) o)
  unfolding option_step
  option_step-OptionsOk name value o k = elim (Bool-cases (is_empty name)) [
    | inl bare ↦ rw bare (refuse-OptionsOk line exception malformed_empty_name o k)
    | inr filled ↦ elim (Bool-cases (text_eq name (codes "domain"))) [
      | inl e ↦ rw (filled, e) (domain_option-OptionsOk line exception value o k)
      | inr ne ↦ elim (Bool-cases (text_eq name (codes "redirect"))) [
        | inl e ↦ rw (filled, ne, e) (redirect_option-OptionsOk line exception value o k)
        | inr ne' ↦
            rw (filled, ne, ne') (refuse-OptionsOk line exception (unsupported_option name) o k)
      ]
    ]
  ]

  option_loop-OptionsOk :
      (opts : List Text) (o : Options)
      → OptionsOk line exception o
      → OptionsOk line exception (option_loop line exception opts o)
  unfolding option_loop
  option_loop-OptionsOk [] o k = k
  option_loop-OptionsOk (opt ∷ opts) o k =
      option_loop-OptionsOk opts _
        (option_step-OptionsOk (partition b'=' opt).0 (partition b'=' opt).1 o k)

IsWhole-of_refused : (outcomes : List Outcome) → All IsRefused outcomes → IsWhole outcomes
IsWhole-of_refused [] h = tt
IsWhole-of_refused (rule r ∷ rest) h = absurd h.0
IsWhole-of_refused (refused f ∷ rest) h = h.1

no_options-OptionsOk : (line : Text) (exception : Bool) → OptionsOk line exception no_options
no_options-OptionsOk line exception = record {
  domains = tt;
  excludes = tt;
  redirect = λ e. refl;
  directives = tt;
  refusals = tt;
}

-- A rule allows exactly if the flag is set.
abbrev pub HasAction : Bool → Outcome → Type 0
HasAction exception (rule r) = (r.action ≡ Action.allow) ↔ (exception ≡ true)
HasAction exception (refused f) = Unit

HasAction-of_refused :
    (exception : Bool) (outcomes : List Outcome)
    → All IsRefused outcomes
    → All (HasAction exception) outcomes
HasAction-of_refused exception [] h = tt
HasAction-of_refused exception (rule r ∷ rest) h = absurd h.0
HasAction-of_refused exception (refused f ∷ rest) h = (tt, HasAction-of_refused exception rest h.1)

HasAction-refusal :
    (exception : Bool) (line : Text) (reason : Reason) → HasAction exception (refusal line reason)
unfolding refusal
HasAction-refusal exception line reason = tt

module _ (line : Text) (exception : Bool) (filt : Text) where
  network_rule-IsBundleRule :
      (o : Options)
      → OptionsOk line exception o
      → filter_grammar_refusal filt ≡ none
      → IsBundleRule (network_rule exception filt o)
  network_rule-IsBundleRule o k e = record {
    carried = e;
    domains = k.domains;
    exclude_domains = k.excludes;
    fits = (ground arith, refl);
  }

  redirect_rule-IsBundleRule :
      (o : Options)
      → OptionsOk line exception o
      → filter_grammar_refusal filt ≡ none
      → is_empty o.redirect_to ≡ false
      → IsBundleRule (redirect_rule filt o)
  redirect_rule-IsBundleRule o k e filled = record {
    carried = e;
    domains = k.domains;
    exclude_domains = k.excludes;
    fits = (refl, filled);
  }

  finish-LineOk :
      (o : Options) → OptionsOk line exception o → LineOk line (finish line exception filt o)
  unfolding finish
  finish-LineOk o k = elim (Bool-cases (is_empty o.refusals)) [
    | inr some_refused ↦ rw some_refused (k.directives, IsWhole-of_refused o.refusals k.refusals)
    | inl accepted ↦ elim (Option-cases (filter_grammar_refusal filt)) [
      | inr (bad, e) ↦ rw (accepted, e) (refusal-LineOk line bad)
      | inl e ↦ elim (Bool-cases (is_empty o.redirect_to)) [
        | inl plain ↦ rw (accepted, e, plain) ((network_rule-IsBundleRule o k e, tt), refl)
        | inr filled ↦
            rw (accepted, e, filled) ((redirect_rule-IsBundleRule o k e filled, tt), refl)
      ]
    ]
  ]

  redirect_action :
      (o : Options)
      → OptionsOk line exception o
      → is_empty o.redirect_to ≡ false
      → HasAction exception (rule (redirect_rule filt o))
  redirect_action o k filled = (
    λ e. cc,
    λ e. absurd (let x : is_empty o.redirect_to ≡ true = ap is_empty (k.redirect e) in cc),
  )

  -- The action of the rule, if there is one, tells whether the line is an exception.
  finish_action :
      (o : Options)
      → OptionsOk line exception o
      → All (HasAction exception) (finish line exception filt o)
  unfolding finish
  finish_action o k = elim (Bool-cases (is_empty o.refusals)) [
    | inr some_refused ↦ rw some_refused (HasAction-of_refused exception o.refusals k.refusals)
    | inl accepted ↦ elim (Option-cases (filter_grammar_refusal filt)) [
      | inr (bad, e) ↦ rw (accepted, e) (HasAction-refusal exception line bad, tt)
      | inl e ↦ elim (Bool-cases (is_empty o.redirect_to)) [
        | inl plain ↦ rw (accepted, e, plain) (ground arith, tt)
        | inr filled ↦ rw (accepted, e, filled) (redirect_action o k filled, tt)
      ]
    ]
  ]

module _ (line : Text) (exception : Bool) where
  options_of-OptionsOk :
      (opts_raw : Text) → OptionsOk line exception (options_of line exception opts_raw)
  unfolding options_of
  options_of-OptionsOk opts_raw =
      elim (Bool-cases (not (is_empty opts_raw) || has_char b'$' line)) [
        | inl given ↦ rw given (
            option_loop-OptionsOk line exception (split b',' opts_raw) no_options
              (no_options-OptionsOk line exception))
        | inr absent ↦ rw absent (no_options-OptionsOk line exception)
      ]

  network_parts-LineOk : (filt : Text) → LineOk line (network_parts line exception filt)
  unfolding network_parts
  network_parts-LineOk filt =
      finish-LineOk line exception (partition b'$' filt).0 _ (options_of-OptionsOk _)

  network_parts_action :
      (filt : Text) → All (HasAction exception) (network_parts line exception filt)
  unfolding network_parts
  network_parts_action filt =
      finish_action line exception (partition b'$' filt).0 _ (options_of-OptionsOk _)

-- The rules of a network line are bundle rules, and it is one rule or refused whole.
pub parse_network-LineOk : (line : Text) → LineOk line (parse_network line)
unfolding parse_network
parse_network-LineOk line = elim (Bool-cases (starts_with (codes "@@") line)) [
  | inl e ↦ rw e (network_parts-LineOk line true (drop 2 line))
  | inr e ↦ rw e (network_parts-LineOk line false line)
]

-- A rule of a network line allows exactly if the line starts with "@@".
pub parse_network_allows_iff :
    (line : Text) → All (HasAction (starts_with (codes "@@") line)) (parse_network line)
unfolding parse_network
parse_network_allows_iff line = elim (Bool-cases (starts_with (codes "@@") line)) [
  | inl e ↦ rw e (network_parts_action line true (drop 2 line))
  | inr e ↦ rw e (network_parts_action line false line)
]
