-- ===== src/ListCompiler/Cosmetic/Rules.antt =====
-- The rules and refusals of `parse_cosmetic`.
use xr_browser.Prelude.{
  Text, ◌≡◌, ◌≢◌, refl, none, List, [], ◌∷◌, All, starts_with, ◌||◌, codes, Bool-cases,
  Option-cases, inl, inr,
}
use xr_browser.ListCompiler.Reason.{scriptlet, procedural_cosmetic, malformed_domain}
use xr_browser.ListCompiler.Grammar.{filter_grammar_refusal}
use xr_browser.ListCompiler.Domains.{split_cosmetic_domains}
use xr_browser.ListCompiler.Domains.Scoping.{
  IsFilled, Scoping-IsFilled, split_cosmetic_domains-Scoping,
}
use xr_browser.ListCompiler.Outcome.{Action}
use xr_browser.ListCompiler.WellFormed.{IsBundleRule, LineOk, refusal-LineOk}
use xr_browser.ListCompiler.Cosmetic.{is_procedural, cosmetic_rule, scoped, parse_cosmetic}

module _ (line : Text) (rhs : Text) (action : Action) (inert : action ≢ Action.redirect)
    (carried : filter_grammar_refusal rhs ≡ none) where
  cosmetic_rule-IsBundleRule :
      (inc exc : List Text)
      → All IsFilled inc
      → All IsFilled exc
      → IsBundleRule (cosmetic_rule action rhs (inc, exc))
  cosmetic_rule-IsBundleRule inc exc h k = record {
    carried = carried;
    domains = h;
    exclude_domains = k;
    fits = (inert, refl);
  }

  scoped-LineOk : (lhs : Text) → LineOk line (scoped line lhs rhs action)
  unfolding scoped
  scoped-LineOk [] = ((cosmetic_rule-IsBundleRule [] [] tt tt, tt), refl)
  scoped-LineOk (c ∷ lhs) = elim (Option-cases (split_cosmetic_domains (c ∷ lhs))) [
    | inl bad ↦ rw (bad, scoped) (refusal-LineOk line malformed_domain)
    | inr ((inc, exc), good) ↦
        let (h, k) = Scoping-IsFilled (split_cosmetic_domains-Scoping (c ∷ lhs) inc exc good) in
        rw (good, scoped) ((cosmetic_rule-IsBundleRule inc exc h k, tt), refl)
  ]

-- The rule of a cosmetic line is a bundle rule that allows or blocks; else the line is refused.
pub parse_cosmetic-LineOk :
    (line lhs rhs : Text) (action : Action)
    → action ≢ Action.redirect
    → LineOk line (parse_cosmetic line lhs rhs action)
unfolding parse_cosmetic
parse_cosmetic-LineOk line lhs rhs action inert =
    elim (Bool-cases (starts_with (codes "+js(") rhs || starts_with (codes "//scriptlet") rhs)) [
      | inl e ↦ rw e (refusal-LineOk line scriptlet)
      | inr e ↦ elim (Bool-cases (is_procedural rhs)) [
        | inl p ↦ rw (e, p) (refusal-LineOk line procedural_cosmetic)
        | inr p ↦ elim (Option-cases (filter_grammar_refusal rhs)) [
          | inr (bad, g) ↦ rw (e, p, g) (refusal-LineOk line bad)
          | inl g ↦ rw (e, p, g) (scoped-LineOk line rhs action inert g lhs)
        ]
      ]
    ]
