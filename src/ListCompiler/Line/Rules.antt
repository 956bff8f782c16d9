-- ===== src/ListCompiler/Line/Rules.antt =====
-- The rules and refusals of `parse_line`.
use xr_browser.Prelude.{
  Text, ◌∙◌, List, [], ◌∷◌, ◌&&◌, All, strip, strip_idem, starts_with, ends_with, find, is_empty,
  codes, Bool-cases, Option-cases, inl, inr,
}
use xr_browser.ListCompiler.Reason.{scriptlet, procedural_cosmetic, preprocessor}
use xr_browser.ListCompiler.Outcome.{Outcome, rule, refused}
use xr_browser.ListCompiler.WellFormed.{OutcomeOk, IsWhole, LineOk, refusal-LineOk}
use xr_browser.ListCompiler.Cosmetic.Rules.{parse_cosmetic-LineOk}
use xr_browser.ListCompiler.Network.Rules.{parse_network-LineOk}
use xr_browser.ListCompiler.Line.{
  Marker, at_procedural, procedural, scriptlet_percent, scriptlet_dollar, unhide, hide, marker_text,
  markers, marked, marker_loop, stripped_line, parse_line,
}

marked-LineOk : (s : Text) (m : Marker) (lhs rhs : Text) → LineOk s (marked s m lhs rhs)
unfolding marked
marked-LineOk s at_procedural lhs rhs = refusal-LineOk s procedural_cosmetic
marked-LineOk s procedural lhs rhs = refusal-LineOk s procedural_cosmetic
marked-LineOk s scriptlet_percent lhs rhs = refusal-LineOk s scriptlet
marked-LineOk s scriptlet_dollar lhs rhs = refusal-LineOk s scriptlet
marked-LineOk s unhide lhs rhs = parse_cosmetic-LineOk s lhs rhs _ (λ e. cc)
marked-LineOk s hide lhs rhs = parse_cosmetic-LineOk s lhs rhs _ (λ e. cc)

marker_loop-LineOk : (s : Text) (ms : List Marker) → LineOk s (marker_loop s ms)
unfolding marker_loop
marker_loop-LineOk s [] = parse_network-LineOk s
marker_loop-LineOk s (m ∷ ms) = elim (Option-cases (find (codes (marker_text m)) s)) [
  | inl e ↦ rw (e, marker_loop) (marker_loop-LineOk s ms)
  | inr (idx, e) ↦ rw (e, marker_loop) (marked-LineOk s m _ _)
]

stripped_line-LineOk : (s : Text) → LineOk s (stripped_line s)
unfolding stripped_line
stripped_line-LineOk s = elim (Bool-cases (is_empty s)) [
  | inl e ↦ rw e (tt, tt)
  | inr e ↦ elim (Bool-cases (starts_with (codes "!#") s)) [
    | inl p ↦ rw (e, p) (refusal-LineOk s preprocessor)
    | inr p ↦ elim (Bool-cases (starts_with (codes "!") s)) [
      | inl q ↦ rw (e, p, q) (tt, tt)
      | inr q ↦ elim (Bool-cases (starts_with (codes "[") s && ends_with (codes "]") s)) [
        | inl r ↦ rw (e, p, q, r) (tt, tt)
        | inr r ↦ rw (e, p, q, r) (marker_loop-LineOk s markers)
      ]
    ]
  ]
]

OutcomeOk-strip :
    (line : Text) (outcomes : List Outcome)
    → All (OutcomeOk (strip line)) outcomes
    → All (OutcomeOk line) outcomes
OutcomeOk-strip line [] h = tt
OutcomeOk-strip line (rule r ∷ rest) h = (h.0, OutcomeOk-strip line rest h.1)
OutcomeOk-strip line (refused f ∷ rest) h = (h.0 ∙ strip_idem line, OutcomeOk-strip line rest h.1)

-- For every source line: each rule has a filter that the bundle grammar carries, no empty domain,
-- and an action and a resource that fit its kind; each refusal quotes the stripped line; and the
-- line gives nothing, one rule and no more, or refusals and no rule.
pub parse_line-LineOk :
    (line : Text) → All (OutcomeOk line) (parse_line line) × IsWhole (parse_line line)
unfolding parse_line
parse_line-LineOk line =
    let (ok, whole) = stripped_line-LineOk (strip line) in (OutcomeOk-strip line _ ok, whole)
