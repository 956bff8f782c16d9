-- ===== src/ListCompiler/Grammar/Accepts.antt =====
-- Which filters `filter_grammar_refusal` lets through, told by how they are spelled.
use xr_browser.Prelude.{
  ℕ, Text, false, ◌≡◌, ◌↔◌, ◌⊎◌, refl, sym, ap, ◌∙◌, none, [], ◌∷◌, ◌++◌, is_empty, length, leb,
  append-nil, arith, ◌&&◌, Bool-cases, inl, inr, has_char, starts_with, ends_with,
  starts_with_split, ends_with_split, ends_with-append, ends_with_lacking, codes,
}
use xr_browser.ListCompiler.Grammar.{
  drop_last, head_is, cut_front, cut_back, body_of, filter_grammar_refusal,
}
use xr_browser.ListCompiler.Grammar.Segments.{no_gap}

-- The filter is an anchor, a body and an anchor.
pub record Spelled (filt : Text) : Type 0 where
  pub front : Text
  pub body : Text
  pub back : Text
  pub spelled : filt ≡ front ++ (body ++ back)
  pub opening : (front ≡ []) ⊎ (front ≡ b'|' ∷ []) ⊎ (front ≡ b'|' ∷ b'|' ∷ [])
  pub closing : (back ≡ []) ⊎ (back ≡ b'|' ∷ [])
  pub filled : is_empty body ≡ false
  pub unpiped : has_char b'|' body ≡ false

-- A filter of the bundle grammar: no comment, no regular expression, none of "$", "#" and "@",
-- and the vertical bar in the anchors alone.
pub record Carried (filt : Text) : Type 0 where
  pub shape : Spelled filt
  pub uncommented : head_is b'!' filt ≡ false
  pub unslashed : (leb 2 (length filt) && head_is b'/' filt && ends_with (codes "/") filt) ≡ false
  pub no_options : has_char b'$' filt ≡ false
  pub no_hash : has_char b'#' filt ≡ false
  pub no_at : has_char b'@' filt ≡ false

drop_last-append : (s : Text) (c : ℕ) → drop_last (s ++ c ∷ []) ≡ s
unfolding drop_last
drop_last-append [] c = refl
drop_last-append (d ∷ []) c = refl
drop_last-append (d ∷ e ∷ s) c = ground (arith, drop_last-append (e ∷ s) c)

cut_front_unpiped :
    (s t : Text) → is_empty s ≡ false → has_char b'|' s ≡ false → cut_front (s ++ t) ≡ s ++ t
unfolding cut_front starts_with
cut_front_unpiped [] t h k = cc
cut_front_unpiped (c ∷ s) t h k = ground arith

cut_front_one :
    (s t : Text)
    → is_empty s ≡ false
    → has_char b'|' s ≡ false
    → cut_front (b'|' ∷ (s ++ t)) ≡ s ++ t
unfolding cut_front starts_with
cut_front_one [] t h k = cc
cut_front_one (c ∷ s) t h k = ground arith

cut_front_two : (s : Text) → cut_front (b'|' ∷ b'|' ∷ s) ≡ s
unfolding cut_front starts_with
cut_front_two s = refl

cut_back_unpiped : (s : Text) → has_char b'|' s ≡ false → cut_back s ≡ s
unfolding cut_back
cut_back_unpiped s k = rw (ends_with_lacking b'|' s k)

cut_back_piped : (s : Text) → cut_back (s ++ b'|' ∷ []) ≡ s
unfolding cut_back
cut_back_piped s = rw (ends_with-append (b'|' ∷ []) s) (drop_last-append s b'|')

cut_front_spelled :
    (front s t : Text)
    → (front ≡ []) ⊎ (front ≡ b'|' ∷ []) ⊎ (front ≡ b'|' ∷ b'|' ∷ [])
    → is_empty s ≡ false
    → has_char b'|' s ≡ false
    → cut_front (front ++ (s ++ t)) ≡ s ++ t
cut_front_spelled front s t (inl e) h k = rw e (cut_front_unpiped s t h k)
cut_front_spelled front s t (inr (inl e)) h k = rw e (cut_front_one s t h k)
cut_front_spelled front s t (inr (inr e)) h k = rw e (cut_front_two (s ++ t))

cut_back_spelled :
    (back s : Text)
    → (back ≡ []) ⊎ (back ≡ b'|' ∷ [])
    → has_char b'|' s ≡ false
    → cut_back (s ++ back) ≡ s
cut_back_spelled back s (inl e) k = rw (e, append-nil) (cut_back_unpiped s k)
cut_back_spelled back s (inr e) k = rw e (cut_back_piped s)

body_of-Spelled : (filt : Text) (w : Spelled filt) → body_of filt ≡ w.body
unfolding body_of
body_of-Spelled filt w =
    ap (λ t. cut_back (cut_front t)) w.spelled
    ∙ ap cut_back (cut_front_spelled w.front w.body w.back w.opening w.filled w.unpiped)
    ∙ cut_back_spelled w.back w.body w.closing w.unpiped

-- The anchors that were cut off, put back.
front_anchor :
    (s : Text)
    → (front : Text) × (s ≡ front ++ cut_front s)
      × ((front ≡ []) ⊎ (front ≡ b'|' ∷ []) ⊎ (front ≡ b'|' ∷ b'|' ∷ []))
unfolding cut_front
front_anchor s = elim (Bool-cases (starts_with (codes "||") s)) [
  | inl two ↦
      let (r, e) = starts_with_split (codes "||") s two in
      (b'|' ∷ b'|' ∷ [], rw two (rw e refl), inr (inr refl))
  | inr not_two ↦ elim (Bool-cases (starts_with (codes "|") s)) [
    | inl one ↦
        let (r, e) = starts_with_split (codes "|") s one in
        (b'|' ∷ [], rw (not_two, one) (rw e refl), inr (inl refl))
    | inr not_one ↦ ([], rw (not_two, not_one) refl, inl refl)
  ]
]

back_anchor :
    (s : Text) → (back : Text) × (s ≡ cut_back s ++ back) × ((back ≡ []) ⊎ (back ≡ b'|' ∷ []))
unfolding cut_back
back_anchor s = elim (Bool-cases (ends_with (codes "|") s)) [
  | inl piped ↦
      let (r, e) = ends_with_split (codes "|") s piped in
      (b'|' ∷ [], rw piped (rw e (rw (drop_last-append r b'|') refl)), inr refl)
  | inr plain ↦ ([], rw plain (sym (append-nil s)), inl refl)
]

Spelled-of :
    (filt : Text)
    → is_empty (body_of filt) ≡ false
    → has_char b'|' (body_of filt) ≡ false
    → Spelled filt
unfolding body_of
Spelled-of filt h k =
    let (front, e, opening) = front_anchor filt in
    let (back, e', closing) = back_anchor (cut_front filt) in
    record {
      front = front;
      body = cut_back (cut_front filt);
      back = back;
      spelled = e ∙ ap (λ t. front ++ t) e';
      opening = opening;
      closing = closing;
      filled = h;
      unpiped = k;
    }

filled-append :
    (front body back : Text) → is_empty body ≡ false → is_empty (front ++ (body ++ back)) ≡ false
filled-append [] [] back h = cc
filled-append [] (c ∷ body) back h = refl
filled-append (c ∷ front) body back h = refl

Spelled-filled : (filt : Text) → Spelled filt → is_empty filt ≡ false
Spelled-filled filt w = ap is_empty w.spelled ∙ filled-append w.front w.body w.back w.filled

accepts : (filt : Text) → Carried filt → filter_grammar_refusal filt ≡ none
unfolding filter_grammar_refusal
accepts filt w =
    rw (Spelled-filled filt w.shape, w.uncommented, w.unslashed, w.no_options, w.no_hash, w.no_at)
      (rw (body_of-Spelled filt w.shape)
        (rw (w.shape.unpiped, w.shape.filled, no_gap w.shape.body) refl))

carried : (filt : Text) → filter_grammar_refusal filt ≡ none → Carried filt
unfolding filter_grammar_refusal
carried filt h = record {
  shape = Spelled-of filt (ground arith) (ground arith);
  uncommented = ground arith;
  unslashed = ground arith;
  no_options = ground arith;
  no_hash = ground arith;
  no_at = ground arith;
}

-- A filter is let through exactly when it is spelled as the bundle grammar has it.
pub filter_grammar_refusal-eq-none_iff :
    (filt : Text) → (filter_grammar_refusal filt ≡ none) ↔ Carried filt
filter_grammar_refusal-eq-none_iff filt = (carried filt, accepts filt)
