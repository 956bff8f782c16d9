-- ===== src/ListCompiler/Line.antt =====
-- `parse_line` of xr-lists/compile.py.

pub mod Rules
pub mod Reasons
use xr_browser.Prelude.{
  String, Text, ◌&&◌, none, some, List, [], ◌∷◌, ◌+◌, take, drop, length, is_empty, starts_with,
  ends_with, find, strip, codes, if◌then◌else◌,
}
use xr_browser.ListCompiler.Reason.{scriptlet, procedural_cosmetic, preprocessor}
use xr_browser.ListCompiler.Outcome.{Action, Outcome, refusal}
use xr_browser.ListCompiler.Cosmetic.{parse_cosmetic}
use xr_browser.ListCompiler.Network.{parse_network}

-- MARKERS, in the source's order.
pub data Marker : Type 0 where
  at_procedural procedural scriptlet_percent scriptlet_dollar unhide hide : Marker

abbrev pub marker_text : Marker → String
marker_text at_procedural = "#@?#"
marker_text procedural = "#?#"
marker_text scriptlet_percent = "#%#"
marker_text scriptlet_dollar = "#$#"
marker_text unhide = "#@#"
marker_text hide = "##"

abbrev pub markers : List Marker
markers = at_procedural ∷ procedural ∷ scriptlet_percent ∷ scriptlet_dollar ∷ unhide ∷ hide ∷ []

-- The body of the loop once a marker is found.
marked : Text → Marker → Text → Text → List Outcome
marked s at_procedural lhs rhs = refusal s procedural_cosmetic ∷ []
marked s procedural lhs rhs = refusal s procedural_cosmetic ∷ []
marked s scriptlet_percent lhs rhs = refusal s scriptlet ∷ []
marked s scriptlet_dollar lhs rhs = refusal s scriptlet ∷ []
marked s unhide lhs rhs = parse_cosmetic s lhs rhs Action.allow
marked s hide lhs rhs = parse_cosmetic s lhs rhs Action.block

-- The loop over the markers; a line with none is a network filter.
unfoldable pub marker_loop : Text → List Marker → List Outcome
unfolding marked
marker_loop s [] = parse_network s
marker_loop s (m ∷ ms) = elim (find (codes (marker_text m)) s) [
  | none ↦ marker_loop s ms
  | some idx ↦ marked s m (take idx s) (drop (idx + length (codes (marker_text m))) s)
]

stripped_line : Text → List Outcome
stripped_line s =
    if is_empty s
    then []
    else if starts_with (codes "!#") s
    then refusal s preprocessor ∷ []
    else if starts_with (codes "!") s
    then []
    else if starts_with (codes "[") s && ends_with (codes "]") s
    then []
    else marker_loop s markers

unfoldable pub parse_line : Text → List Outcome
unfolding stripped_line
parse_line line = stripped_line (strip line)
