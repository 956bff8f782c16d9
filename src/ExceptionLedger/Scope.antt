-- ===== src/ExceptionLedger/Scope.antt =====
-- `parse_scope_cell` of exception_ledger_check.py, and the scopes that it lets through.
use xr_browser.Prelude.{
  ◌≡◌, ◌↔◌, refl, Text, true, false, not, Option, none, some, List, [], ◌∷◌, map, codes, has_char,
  is_empty, partition, split, strip, text_mem, arith, if◌then◌else◌,
}

-- SHIELD_DIMS
abbrev pub shield_dims : List Text
shield_dims =
    codes "identity" ∷ codes "list_id" ∷ codes "rule_id" ∷ codes "site" ∷ codes "workspace" ∷ []

pub data BadScope : Type 0 where
  empty_scope : BadScope
  not_key_value unknown_dimension empty_value repeated_dimension : Text → BadScope

-- The key and the value of a part that has "=".
abbrev pub key_of : Text → Text
key_of part = strip (partition b'=' part).0

abbrev pub value_of : Text → Text
value_of part = strip (partition b'=' part).1

-- The loop over the stripped parts.
unfoldable pub scope_loop : List Text → List Text → Option BadScope
scope_loop seen [] = none
scope_loop seen (part ∷ parts) =
    let rest = scope_loop (key_of part ∷ seen) parts in
    if not (has_char b'=' part)
    then some (not_key_value part)
    else if not (text_mem (key_of part) shield_dims)
    then some (unknown_dimension (key_of part))
    else if is_empty (value_of part)
    then some (empty_value (key_of part))
    else if text_mem (key_of part) seen
    then some (repeated_dimension (key_of part))
    else rest

-- parse_scope_cell: what is wrong with a scope
unfoldable pub parse_scope_cell : Text → Option BadScope
parse_scope_cell cell =
    if is_empty cell then some empty_scope else scope_loop [] (map strip (split b',' cell))

-- A dimension: a known key, "=" and a value.
pub record IsDimension (part : Text) : Type 0 where
  pub separated : has_char b'=' part ≡ true
  pub known : text_mem (key_of part) shield_dims ≡ true
  pub valued : is_empty (value_of part) ≡ false

-- Dimensions of which none has the key of another, or one of those that are seen.
pub data AreDimensions : List Text → List Text → Type 0 where
  no_more : {seen : List Text} → AreDimensions seen []
  dimension :
      {seen : List Text} {part : Text} {parts : List Text}
      → IsDimension part
      → text_mem (key_of part) seen ≡ false
      → AreDimensions (key_of part ∷ seen) parts
      → AreDimensions seen (part ∷ parts)

scope_loop-AreDimensions :
    (seen parts : List Text) → scope_loop seen parts ≡ none → AreDimensions seen parts
unfolding scope_loop
scope_loop-AreDimensions seen [] e = no_more
scope_loop-AreDimensions seen (part ∷ parts) e =
    dimension (record { separated = ground arith; known = ground arith; valued = ground arith })
      (ground arith) (scope_loop-AreDimensions (key_of part ∷ seen) parts (ground arith))

AreDimensions-scope_loop :
    {seen parts : List Text} → AreDimensions seen parts → scope_loop seen parts ≡ none
unfolding scope_loop
AreDimensions-scope_loop no_more = refl
AreDimensions-scope_loop (dimension d new rest) =
    rw (d.separated, d.known, d.valued, new) (AreDimensions-scope_loop rest)

-- A scope of at least one dimension, separated by commas.
pub record IsScope (cell : Text) : Type 0 where
  pub filled : is_empty cell ≡ false
  pub dimensions : AreDimensions [] (map strip (split b',' cell))

pub parse_scope_cell-eq-none_iff : (cell : Text) → (parse_scope_cell cell ≡ none) ↔ IsScope cell
unfolding parse_scope_cell
parse_scope_cell-eq-none_iff cell = (
  λ e. record {
    filled = ground arith;
    dimensions = scope_loop-AreDimensions [] (map strip (split b',' cell)) (ground arith);
  },
  λ s. rw s.filled (AreDimensions-scope_loop s.dimensions),
)
