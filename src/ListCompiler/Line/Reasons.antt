-- ===== src/ListCompiler/Line/Reasons.antt =====
-- The reasons and directives of the refusals of `parse_line`.
use xr_browser.Prelude.{
  Text, true, false, ◌≡◌, refl, ap, ◌∙◌, List, [], ◌∷◌, ◌&&◌, All, strip, starts_with, ends_with,
  find, is_empty, codes, Bool-cases, Option-cases, inl, inr,
}
use xr_browser.ListCompiler.Reason.{scriptlet, procedural_cosmetic, preprocessor, is_named}
use xr_browser.ListCompiler.Outcome.{Outcome, rule, refused}
use xr_browser.ListCompiler.WellFormed.{OutcomeOk}
use xr_browser.ListCompiler.Cosmetic.Reasons.{parse_cosmetic-IsNamed}
use xr_browser.ListCompiler.Network.Reasons.{IsNamed, refusal-IsNamed, parse_network-IsNamed}
use xr_browser.ListCompiler.Line.Rules.{parse_line-LineOk}
use xr_browser.ListCompiler.Line.{
  Marker, at_procedural, procedural, scriptlet_percent, scriptlet_dollar, unhide, hide, marker_text,
  markers, marked, marker_loop, stripped_line, parse_line,
}

marked-IsNamed : (s : Text) (m : Marker) (lhs rhs : Text) → All IsNamed (marked s m lhs rhs)
unfolding marked
marked-IsNamed s at_procedural lhs rhs = (refusal-IsNamed s procedural_cosmetic refl, tt)
marked-IsNamed s procedural lhs rhs = (refusal-IsNamed s procedural_cosmetic refl, tt)
marked-IsNamed s scriptlet_percent lhs rhs = (refusal-IsNamed s scriptlet refl, tt)
marked-IsNamed s scriptlet_dollar lhs rhs = (refusal-IsNamed s scriptlet refl, tt)
marked-IsNamed s unhide lhs rhs = parse_cosmetic-IsNamed s lhs rhs _
marked-IsNamed s hide lhs rhs = parse_cosmetic-IsNamed s lhs rhs _

marker_loop-IsNamed : (s : Text) (ms : List Marker) → All IsNamed (marker_loop s ms)
unfolding marker_loop
marker_loop-IsNamed s [] = parse_network-IsNamed s
marker_loop-IsNamed s (m ∷ ms) = elim (Option-cases (find (codes (marker_text m)) s)) [
  | inl e ↦ rw (e, marker_loop) (marker_loop-IsNamed s ms)
  | inr (idx, e) ↦ rw (e, marker_loop) (marked-IsNamed s m _ _)
]

-- A refusal is for a named reason and quotes a filled line.
abbrev pub Quotes : Outcome → Type 0
Quotes (rule r) = Unit
Quotes (refused f) = (is_named f.reason ≡ true) × (is_empty f.directive ≡ false)

stripped_line-IsNamed : (s : Text) → All IsNamed (stripped_line s)
unfolding stripped_line
stripped_line-IsNamed s = elim (Bool-cases (is_empty s)) [
  | inl e ↦ rw e tt
  | inr e ↦ elim (Bool-cases (starts_with (codes "!#") s)) [
    | inl p ↦ rw (e, p) (refusal-IsNamed s preprocessor refl, tt)
    | inr p ↦ elim (Bool-cases (starts_with (codes "!") s)) [
      | inl q ↦ rw (e, p, q) tt
      | inr q ↦ elim (Bool-cases (starts_with (codes "[") s && ends_with (codes "]") s)) [
        | inl r ↦ rw (e, p, q, r) tt
        | inr r ↦ rw (e, p, q, r) (marker_loop-IsNamed s markers)
      ]
    ]
  ]
]

quoting :
    (line : Text) (os : List Outcome)
    → is_empty (strip line) ≡ false
    → All IsNamed os
    → All (OutcomeOk line) os
    → All Quotes os
quoting line [] filled n ok = tt
quoting line (rule r ∷ os) filled n ok = (tt, quoting line os filled n.1 ok.1)
quoting line (refused f ∷ os) filled n ok =
    ((n.0, ap is_empty ok.0 ∙ filled), quoting line os filled n.1 ok.1)

-- Every refusal of a line is for a named reason and quotes a directive that is not empty.
pub parse_line-Quotes : (line : Text) → All Quotes (parse_line line)
unfolding parse_line stripped_line
parse_line-Quotes line = elim (Bool-cases (is_empty (strip line))) [
  | inl blank ↦ rw blank tt
  | inr filled ↦
      quoting line (parse_line line) filled (stripped_line-IsNamed (strip line))
        (parse_line-LineOk line).0
]
