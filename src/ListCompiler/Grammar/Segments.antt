-- ===== src/ListCompiler/Grammar/Segments.antt =====
-- The loop over a filter's segments in `filter_grammar_refusal`.
use xr_browser.Prelude.{
  Text, Bool, true, false, not, ◌≡◌, ◌≢◌, refl, some, List, [], ◌∷◌, ◌++◌, any, is_empty,
  any-append, arith, ◌||◌,
}
use xr_browser.ListCompiler.Reason.{empty_segment}
use xr_browser.ListCompiler.Grammar.{segment_loop, inner, body_of, filter_grammar_refusal}

-- Whether a segment behind the first is empty.
tail_gap : List Text → Bool
tail_gap [] = false
tail_gap (s ∷ segs) = any is_empty segs

tail_gap-append :
    (segs : List Text) (cur : Text)
    → tail_gap segs ≡ false
    → (not (is_empty cur) || is_empty segs) ≡ true
    → tail_gap (segs ++ cur ∷ []) ≡ false
unfolding tail_gap
tail_gap-append [] cur h k = refl
tail_gap-append (s ∷ segs) cur h k = ground (arith, any-append is_empty segs (cur ∷ []))

inner-append : (s x : Text) (segs : List Text) → inner (s ∷ segs ++ x ∷ []) ≡ segs
unfolding inner
inner-append s x [] = refl
inner-append s x (y ∷ []) = refl
inner-append s x (y ∷ z ∷ segs) = ground (arith, inner-append y x (z ∷ segs))

inner_gap :
    (segs : List Text) (x : Text)
    → tail_gap segs ≡ false
    → any is_empty (inner (segs ++ x ∷ [])) ≡ false
unfolding tail_gap
inner_gap [] x h = unfold inner in refl
inner_gap (s ∷ segs) x h = ground (arith, inner-append s x segs)

-- Every run of the loop keeps the segments behind the first filled.
segment_loop-filled :
    (segs : List Text) (cur s : Text)
    → tail_gap segs ≡ false
    → any is_empty (inner (segment_loop segs cur s)) ≡ false
unfolding segment_loop
segment_loop-filled segs cur [] h = inner_gap segs cur h
segment_loop-filled segs cur (c ∷ s) h = ground (
  arith,
  segment_loop-filled (segs ++ cur ∷ []) [] s,
  segment_loop-filled segs [] s,
  segment_loop-filled segs (cur ++ c ∷ []) s,
  tail_gap-append segs cur h,
)

pub no_gap : (s : Text) → any is_empty (inner (segment_loop [] [] s)) ≡ false
unfolding tail_gap
no_gap s = segment_loop-filled [] [] s refl

-- The refusal for an empty segment is never given, whatever the filter.
pub filter_grammar_refusal-ne-empty_segment :
    (filt : Text) → filter_grammar_refusal filt ≢ some empty_segment
unfolding filter_grammar_refusal
filter_grammar_refusal-ne-empty_segment filt = ground (arith, no_gap (body_of filt))
