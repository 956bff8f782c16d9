-- ===== src/ListCompiler/Cosmetic/Reasons.antt =====
-- The reasons of the refusals of `parse_cosmetic`.
use xr_browser.Prelude.{
  Text, refl, [], ◌∷◌, ◌||◌, All, starts_with, codes, Bool-cases, Option-cases, inl, inr,
}
use xr_browser.ListCompiler.Reason.{scriptlet, procedural_cosmetic, malformed_domain}
use xr_browser.ListCompiler.Grammar.{filter_grammar_refusal}
use xr_browser.ListCompiler.Domains.{split_cosmetic_domains}
use xr_browser.ListCompiler.Outcome.{Action}
use xr_browser.ListCompiler.Network.Reasons.{IsNamed, refusal-IsNamed, filter_grammar_refusal_named}
use xr_browser.ListCompiler.Cosmetic.{is_procedural, scoped, parse_cosmetic}

scoped-IsNamed : (line lhs rhs : Text) (action : Action) → All IsNamed (scoped line lhs rhs action)
unfolding scoped
scoped-IsNamed line [] rhs action = (tt, tt)
scoped-IsNamed line (c ∷ lhs) rhs action = elim (Option-cases (split_cosmetic_domains (c ∷ lhs))) [
  | inl bad ↦ rw (bad, scoped) (refusal-IsNamed line malformed_domain refl, tt)
  | inr (d, good) ↦ rw (good, scoped) (tt, tt)
]

pub parse_cosmetic-IsNamed :
    (line lhs rhs : Text) (action : Action) → All IsNamed (parse_cosmetic line lhs rhs action)
unfolding parse_cosmetic
parse_cosmetic-IsNamed line lhs rhs action =
    elim (Bool-cases (starts_with (codes "+js(") rhs || starts_with (codes "//scriptlet") rhs)) [
      | inl e ↦ rw e (refusal-IsNamed line scriptlet refl, tt)
      | inr e ↦ elim (Bool-cases (is_procedural rhs)) [
        | inl p ↦ rw (e, p) (refusal-IsNamed line procedural_cosmetic refl, tt)
        | inr p ↦ elim (Option-cases (filter_grammar_refusal rhs)) [
          | inr (bad, g) ↦
              rw (e, p, g) (refusal-IsNamed line bad (filter_grammar_refusal_named rhs bad g), tt)
          | inl g ↦ rw (e, p, g) (scoped-IsNamed line lhs rhs action)
        ]
      ]
    ]
