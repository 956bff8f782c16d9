-- ===== src/ListCompiler/Grammar.antt =====
-- `filter_grammar_refusal` of xr-lists/compile.py: which filters the bundle grammar carries.
pub mod Segments
pub mod Accepts
use xr_browser.Prelude.{
  ℕ, Text, Bool, true, false, not, ◌&&◌, ◌||◌, Option, none, some, List, [], ◌∷◌, ◌++◌, leb, length,
  is_empty, any, drop, has_char, starts_with, ends_with, ◌==◌, if◌then◌else◌, codes,
}
use xr_browser.ListCompiler.Reason.{
  Reason, empty_filter, comment, regex, options_in_filter, cosmetic_hash, at_syntax, interior_pipe,
  empty_segment,
}

-- s[:-1]
unfoldable pub drop_last : Text → Text
drop_last [] = []
drop_last (c ∷ []) = []
drop_last (c ∷ d ∷ s) = c ∷ drop_last (d ∷ s)

-- filt[0] == c, where `filt` is not empty
unfoldable pub head_is : ℕ → Text → Bool
head_is c [] = false
head_is c (d ∷ s) = c == d

-- The anchors are cut off: "||" or "|" in front, and one "|" behind.
cut_front : Text → Text
cut_front s =
    if starts_with (codes "||") s
    then drop 2 s
    else if starts_with (codes "|") s
    then drop 1 s
    else s

cut_back : Text → Text
cut_back s = if ends_with (codes "|") s then drop_last s else s

unfoldable pub body_of : Text → Text
unfolding cut_front cut_back
body_of filt = cut_back (cut_front filt)

-- The loop over the body: `segs` and `cur` as it leaves them, `cur` appended last.
unfoldable pub segment_loop : List Text → Text → Text → List Text
segment_loop segs cur [] = segs ++ cur ∷ []
segment_loop segs cur (c ∷ s) = elim (c == b'*') [
  | true ↦
      segment_loop (if not (is_empty cur) || is_empty segs then segs ++ cur ∷ [] else segs) [] s
  | false ↦ segment_loop segs (cur ++ c ∷ []) s
]

-- segs[1:-1]
unfoldable pub inner : List Text → List Text
inner [] = []
inner (first ∷ []) = []
inner (first ∷ x ∷ []) = []
inner (first ∷ x ∷ y ∷ r) = x ∷ inner (x ∷ y ∷ r)

-- The first refusal that applies, in the order of the source's tests.
unfoldable pub filter_grammar_refusal : Text → Option Reason
filter_grammar_refusal filt =
    if is_empty filt
    then some empty_filter
    else if head_is b'!' filt
    then some comment
    else if leb 2 (length filt) && head_is b'/' filt && ends_with (codes "/") filt
    then some regex
    else if has_char b'$' filt
    then some options_in_filter
    else if has_char b'#' filt
    then some cosmetic_hash
    else if has_char b'@' filt
    then some at_syntax
    else if has_char b'|' (body_of filt)
    then some interior_pipe
    else if is_empty (body_of filt)
    then some empty_filter
    else if any is_empty (inner (segment_loop [] [] (body_of filt)))
    then some empty_segment
    else none
