-- ===== src/ListCompiler/Network/Reasons.antt =====
-- The reasons of the refusals of `parse_network`.
use xr_browser.Prelude.{
  Text, Bool, true, false, ◌≡◌, refl, not, ◌||◌, List, [], ◌∷◌, All, All-append, is_empty, has_char,
  starts_with, drop, split, partition, text_eq, codes, some, Bool-cases, Option-cases, inl, inr,
  arith,
}
use xr_browser.ListCompiler.Reason.{
  Reason, malformed_domain, malformed_empty_name, malformed_redirect, redirect_on_exception,
  unsupported_option, is_named,
}
use xr_browser.ListCompiler.Grammar.{filter_grammar_refusal}
use xr_browser.ListCompiler.Domains.{split_domains}
use xr_browser.ListCompiler.Outcome.{Outcome, rule, refused, refusal}
use xr_browser.ListCompiler.Network.{
  Options, no_options, refuse, domain_option, redirect_option, option_step, option_loop, finish,
  options_of, network_parts, parse_network,
}

-- A refusal for an option names it.
abbrev pub IsNamed : Outcome → Type 0
IsNamed (rule r) = Unit
IsNamed (refused f) = is_named f.reason ≡ true

pub filter_grammar_refusal_named :
    (filt : Text) (r : Reason) → filter_grammar_refusal filt ≡ some r → is_named r ≡ true
unfolding filter_grammar_refusal
filter_grammar_refusal_named filt r h = ground arith

pub refusal-IsNamed : (line : Text) (r : Reason) → is_named r ≡ true → IsNamed (refusal line r)
unfolding refusal
refusal-IsNamed line r h = h

module _ (line : Text) (exception : Bool) where
  AllNamed : Options → Type 0
  AllNamed o = All IsNamed o.refusals

  refuse-AllNamed :
      (r : Reason) (o : Options) → is_named r ≡ true → AllNamed o → AllNamed (refuse line r o)
  unfolding AllNamed
  refuse-AllNamed r o n h =
      All-append IsNamed o.refusals (refusal line r ∷ []) h (refusal-IsNamed line r n, tt)

  domain_option-AllNamed :
      (value : Text) (o : Options) → AllNamed o → AllNamed (domain_option line value o)
  unfolding domain_option AllNamed
  domain_option-AllNamed value o h = elim (Bool-cases (is_empty value)) [
    | inl e ↦ rw e (refuse-AllNamed malformed_domain o refl h)
    | inr e ↦ elim (Option-cases (split_domains value)) [
      | inl bad ↦ rw (e, bad) (refuse-AllNamed malformed_domain o refl h)
      | inr (d, good) ↦ rw (e, good) h
    ]
  ]

  redirect_option-AllNamed :
      (value : Text) (o : Options) → AllNamed o → AllNamed (redirect_option line exception value o)
  unfolding redirect_option AllNamed
  redirect_option-AllNamed value o h = elim (Bool-cases exception) [
    | inl x ↦ rw x (refuse-AllNamed redirect_on_exception o refl h)
    | inr x ↦ elim (Bool-cases (is_empty value)) [
      | inl e ↦ rw (x, e) (refuse-AllNamed malformed_redirect o refl h)
      | inr e ↦ rw (x, e) h
    ]
  ]

  option_step-AllNamed :
      (name value : Text) (o : Options)
      → AllNamed o
      → AllNamed (option_step line exception (name, value) o)
  unfolding option_step
  option_step-AllNamed name value o h = elim (Bool-cases (is_empty name)) [
    | inl e ↦ rw e (refuse-AllNamed malformed_empty_name o refl h)
    | inr e ↦ elim (Bool-cases (text_eq name (codes "domain"))) [
      | inl d ↦ rw (e, d) (domain_option-AllNamed value o h)
      | inr d ↦ elim (Bool-cases (text_eq name (codes "redirect"))) [
        | inl r ↦ rw (e, d, r) (redirect_option-AllNamed value o h)
        | inr r ↦ rw (e, d, r) (refuse-AllNamed (unsupported_option name) o (ground (arith, e)) h)
      ]
    ]
  ]

  option_loop-AllNamed :
      (opts : List Text) (o : Options) → AllNamed o → AllNamed (option_loop line exception opts o)
  unfolding option_loop
  option_loop-AllNamed [] o h = h
  option_loop-AllNamed (opt ∷ opts) o h =
      option_loop-AllNamed opts (option_step line exception (partition b'=' opt) o)
        (option_step-AllNamed (partition b'=' opt).0 (partition b'=' opt).1 o h)

  options_of-AllNamed : (raw : Text) → AllNamed (options_of line exception raw)
  unfolding options_of AllNamed
  options_of-AllNamed raw = elim (Bool-cases (not (is_empty raw) || has_char b'$' line)) [
    | inl given ↦ rw given (option_loop-AllNamed (split b',' raw) no_options tt)
    | inr absent ↦ rw absent tt
  ]

  finish-IsNamed :
      (filt : Text) (o : Options) → AllNamed o → All IsNamed (finish line exception filt o)
  unfolding finish AllNamed
  finish-IsNamed filt o h = elim (Bool-cases (is_empty o.refusals)) [
    | inr bad ↦ rw bad h
    | inl good ↦ elim (Option-cases (filter_grammar_refusal filt)) [
      | inr (r, e) ↦
          rw (good, e) (refusal-IsNamed line r (filter_grammar_refusal_named filt r e), tt)
      | inl e ↦ elim (Bool-cases (is_empty o.redirect_to)) [
        | inl plain ↦ rw (good, e, plain) (tt, tt)
        | inr filled ↦ rw (good, e, filled) (tt, tt)
      ]
    ]
  ]

  network_parts-IsNamed : (filt : Text) → All IsNamed (network_parts line exception filt)
  unfolding network_parts
  network_parts-IsNamed filt =
      finish-IsNamed (partition b'$' filt).0 _ (options_of-AllNamed (partition b'$' filt).1)

pub parse_network-IsNamed : (line : Text) → All IsNamed (parse_network line)
unfolding parse_network
parse_network-IsNamed line = elim (Bool-cases (starts_with (codes "@@") line)) [
  | inl e ↦ rw e (network_parts-IsNamed line true (drop 2 line))
  | inr e ↦ rw e (network_parts-IsNamed line false line)
]
