-- ===== src/ListCompiler/WellFormed.antt =====
-- What a line's outcomes have to satisfy: rules that the bundle may hold, refusals that quote the
-- line, and no mixture of the two.
use xr_browser.Prelude.{Text, ◌≡◌, ◌≢◌, refl, Option, none, some, List, [], ◌∷◌, All, strip}
use xr_browser.ListCompiler.Reason.{Reason}
use xr_browser.ListCompiler.Grammar.{filter_grammar_refusal}
use xr_browser.ListCompiler.Domains.Scoping.{IsFilled}
use xr_browser.ListCompiler.Outcome.{Action, Kind, Rule, Outcome, rule, refused, refusal}

-- The kind, the action and the resource of a rule go together.
abbrev pub Fits : Kind → Action → Option Text → Type 0
Fits Kind.redirect action none = ⊥
Fits Kind.redirect action (some resource) = (action ≡ Action.redirect) × IsFilled resource
Fits _ action resource = (action ≢ Action.redirect) × (resource ≡ none)

-- A rule that the bundle may hold.
pub record IsBundleRule (r : Rule) : Type 0 where
  pub carried : filter_grammar_refusal r.filter ≡ none
  pub domains : All IsFilled r.domains
  pub exclude_domains : All IsFilled r.exclude_domains
  pub fits : Fits r.kind r.action r.resource

abbrev pub OutcomeOk : Text → Outcome → Type 0
OutcomeOk line (rule r) = IsBundleRule r
OutcomeOk line (refused f) = f.directive ≡ strip line

abbrev pub IsRefused : Outcome → Type 0
IsRefused (rule r) = ⊥
IsRefused (refused f) = Unit

-- A line is skipped, or is one rule, or is refused whole.
abbrev pub IsWhole : List Outcome → Type 0
IsWhole [] = Unit
IsWhole (rule r ∷ rest) = rest ≡ []
IsWhole (refused f ∷ rest) = All IsRefused rest

pub refusal-OutcomeOk : (line : Text) (reason : Reason) → OutcomeOk line (refusal line reason)
unfolding refusal
refusal-OutcomeOk line reason = refl

refusal-IsWhole : (line : Text) (reason : Reason) → IsWhole (refusal line reason ∷ [])
unfolding refusal
refusal-IsWhole line reason = tt

pub refusal-IsRefused : (line : Text) (reason : Reason) → IsRefused (refusal line reason)
unfolding refusal
refusal-IsRefused line reason = tt

abbrev pub LineOk : Text → List Outcome → Type 0
LineOk line outcomes = All (OutcomeOk line) outcomes × IsWhole outcomes

pub refusal-LineOk : (line : Text) (reason : Reason) → LineOk line (refusal line reason ∷ [])
refusal-LineOk line reason = ((refusal-OutcomeOk line reason, tt), refusal-IsWhole line reason)
