-- ===== src/ListCompiler/Bundle/Ids.antt =====
-- The rules of `compile_list`, and their ids.
use xr_browser.Prelude.{
  ℕ, Text, ◌+◌, ◌-◌, ◌<◌, ◌≡◌, ◌≢◌, refl, sym, ap, ◌∙◌, List, [], ◌∷◌, ◌++◌, length, length-append,
  append-nil, append_assoc, decimal, value, value_from_zeros, value-decimal, drop, All, map,
  split_lines, arith,
}
use mathlib.Core.List.{append_cancel_left}
use xr_browser.ListCompiler.Outcome.{Rule, Refusal, Outcome, rule, refused}
use xr_browser.ListCompiler.Line.{parse_line}
use xr_browser.ListCompiler.Bundle.{
  CompiledRule, padded, rule_id, add_outcome, add_outcomes, add_lines, compile_list,
}

pub rules_of : List Outcome → List Rule
rules_of [] = []
rules_of (rule r ∷ os) = r ∷ rules_of os
rules_of (refused f ∷ os) = rules_of os

unfoldable pub refusals_of : List Outcome → List Refusal
refusals_of [] = []
refusals_of (rule r ∷ os) = refusals_of os
refusals_of (refused f ∷ os) = f ∷ refusals_of os

-- The outcomes of all lines, in order.
unfoldable pub outcomes_of : List Text → List Outcome
outcomes_of [] = []
outcomes_of (line ∷ lines) = parse_line line ++ outcomes_of lines

-- The rules under the ids from `n` on.
pub numbered : Text → ℕ → List Rule → List CompiledRule
numbered name n [] = []
numbered name n (r ∷ rs) = record { id = rule_id name n; source = r } ∷ numbered name (n + 1) rs

rules_of-append : (os ps : List Outcome) → rules_of (os ++ ps) ≡ rules_of os ++ rules_of ps
unfolding rules_of
rules_of-append [] ps = refl
rules_of-append (rule r ∷ os) ps = rw (rules_of-append os ps)
rules_of-append (refused f ∷ os) ps = rules_of-append os ps

refusals_of-append :
    (os ps : List Outcome) → refusals_of (os ++ ps) ≡ refusals_of os ++ refusals_of ps
unfolding refusals_of
refusals_of-append [] ps = refl
refusals_of-append (rule r ∷ os) ps = refusals_of-append os ps
refusals_of-append (refused f ∷ os) ps = rw (refusals_of-append os ps)

add_outcomes-append :
    (name : Text) (acc : List CompiledRule × List Refusal) (os ps : List Outcome)
    → add_outcomes name acc (os ++ ps) ≡ add_outcomes name (add_outcomes name acc os) ps
unfolding add_outcomes
add_outcomes-append name acc [] ps = refl
add_outcomes-append name acc (o ∷ os) ps = add_outcomes-append name (add_outcome name acc o) os ps

add_lines-outcomes_of :
    (name : Text) (acc : List CompiledRule × List Refusal) (lines : List Text)
    → add_lines name acc lines ≡ add_outcomes name acc (outcomes_of lines)
unfolding add_lines outcomes_of
add_lines-outcomes_of name acc [] = unfold add_outcomes in refl
add_lines-outcomes_of name acc (line ∷ lines) =
    add_lines-outcomes_of name (add_outcomes name acc (parse_line line)) lines
    ∙ sym (add_outcomes-append name acc (parse_line line) (outcomes_of lines))

add_outcomes_lem :
    (name : Text) (rules : List CompiledRule) (refusals : List Refusal) (os : List Outcome)
    → add_outcomes name (rules, refusals) os
      ≡ (rules ++ numbered name (length rules) (rules_of os), refusals ++ refusals_of os)
unfolding add_outcomes add_outcome rules_of refusals_of numbered
add_outcomes_lem name rules refusals [] = rw (append-nil, append-nil) refl
add_outcomes_lem name rules refusals (rule r ∷ os) =
    let new : CompiledRule = record { id = rule_id name (length rules); source = r } in
    add_outcomes_lem name (rules ++ new ∷ []) refusals os
    ∙ rw (length-append rules (new ∷ []), append_assoc) refl
add_outcomes_lem name rules refusals (refused f ∷ os) =
    add_outcomes_lem name rules (refusals ++ f ∷ []) os ∙ rw append_assoc refl

-- The rules of a compiled list are those of its lines, in order, under the ids 0, 1, … behind the
-- list's name; the refusals are those of its lines, in order.
pub compile_list_lem :
    (name attribution source : Text)
    → ((compile_list name attribution source).0.rules
        ≡ numbered name 0 (rules_of (outcomes_of (split_lines source))))
      × ((compile_list name attribution source).1 ≡ refusals_of (outcomes_of (split_lines source)))
unfolding compile_list
compile_list_lem name attribution source =
    let e =
      add_lines-outcomes_of name ([], []) (split_lines source)
      ∙ add_outcomes_lem name [] [] (outcomes_of (split_lines source)) in
    (ap (λ p. p.0) e, ap (λ p. p.1) e)

value-padded : (n : ℕ) → value (padded n) ≡ n
unfolding padded
value-padded n = value_from_zeros (5 - length (decimal n)) (decimal n) ∙ value-decimal n

rule_id-injective : (name : Text) (m n : ℕ) → rule_id name m ≡ rule_id name n → m ≡ n
unfolding rule_id
rule_id-injective name m n e =
    let behind = append_cancel_left name (b'-' ∷ padded m) (b'-' ∷ padded n) e in
    sym (value-padded m) ∙ ap (λ t. value (drop 1 t)) behind ∙ value-padded n

-- No two of the texts are one.
abbrev pub IsDistinct : List Text → Type 0
IsDistinct [] = Unit
IsDistinct (t ∷ ts) = All (λ u. t ≢ u) ts × IsDistinct ts

ids_from :
    (name : Text) (m n : ℕ) (rs : List Rule)
    → m < n
    → All (λ u. rule_id name m ≢ u) (map (λ (r : CompiledRule). r.id) (numbered name n rs))
unfolding numbered
ids_from name m n [] h = tt
ids_from name m n (r ∷ rs) h = (
  λ e. absurd (omega (arith, rule_id-injective name m n e)),
  ids_from name m (n + 1) rs (omega arith),
)

numbered-IsDistinct :
    (name : Text) (n : ℕ) (rs : List Rule)
    → IsDistinct (map (λ (r : CompiledRule). r.id) (numbered name n rs))
unfolding numbered
numbered-IsDistinct name n [] = tt
numbered-IsDistinct name n (r ∷ rs) =
    (ids_from name n (n + 1) rs (omega arith), numbered-IsDistinct name (n + 1) rs)

-- The rules of a compiled list have distinct ids.
pub compile_list-IsDistinct :
    (name attribution source : Text)
    → IsDistinct (map (λ (r : CompiledRule). r.id) (compile_list name attribution source).0.rules)
compile_list-IsDistinct name attribution source =
    rw (compile_list_lem name attribution source).0 (numbered-IsDistinct name 0 _)
