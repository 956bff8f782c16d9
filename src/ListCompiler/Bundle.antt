-- ===== src/ListCompiler/Bundle.antt =====
-- `compile_list` and `compile_config` of xr-lists/compile.py. The files of the configuration are
-- read beforehand: an entry holds the text of its list.
pub mod Counts
pub mod Ids
use xr_browser.Prelude.{
  ℕ, zero, suc, Text, Bool, ◌+◌, ◌-◌, Option, none, some, List, [], ◌∷◌, ◌++◌, length, replicate,
  decimal, split_lines, text_eq, ◌&&◌, codes, if◌then◌else◌,
}
use xr_browser.ListCompiler.Reason.{text}
use xr_browser.ListCompiler.Outcome.{Rule, Refusal, Outcome, rule, refused}
use xr_browser.ListCompiler.Line.{parse_line}

pub record CompiledRule : Type 0 where
  pub id : Text
  pub source : Rule

pub record CompiledList : Type 0 where
  pub name : Text
  pub attribution : Text
  pub rules : List CompiledRule

-- f"{n:05d}"
unfoldable pub padded : ℕ → Text
padded n = replicate (5 - length (decimal n)) b'0' ++ decimal n

-- f"{name}-{n:05d}"
unfoldable pub rule_id : Text → ℕ → Text
unfolding padded
rule_id name n = name ++ (b'-' ∷ padded n)

-- The body of the loop over the outcomes: the rules and the refusals so far.
unfoldable pub add_outcome :
    Text → List CompiledRule × List Refusal → Outcome → List CompiledRule × List Refusal
add_outcome name (rules, refusals) (rule r) =
    (rules ++ record { id = rule_id name (length rules); source = r } ∷ [], refusals)
add_outcome name (rules, refusals) (refused f) = (rules, refusals ++ f ∷ [])

unfoldable pub add_outcomes :
    Text → List CompiledRule × List Refusal → List Outcome → List CompiledRule × List Refusal
add_outcomes name acc [] = acc
add_outcomes name acc (o ∷ os) = add_outcomes name (add_outcome name acc o) os

unfoldable pub add_lines :
    Text → List CompiledRule × List Refusal → List Text → List CompiledRule × List Refusal
add_lines name acc [] = acc
add_lines name acc (line ∷ lines) = add_lines name (add_outcomes name acc (parse_line line)) lines

unfoldable pub compile_list : Text → Text → Text → CompiledList × List Refusal
compile_list name attribution source =
    let (rules, refusals) = add_lines name ([], []) (split_lines source) in
    (record { name = name; attribution = attribution; rules = rules }, refusals)

-- One row of the refusal table.
pub record Tally : Type 0 where
  pub refusal : Refusal
  pub count : ℕ

abbrev pub Key : Type 0
Key = Text × Text

-- (r["directive"], r["reason"])
unfoldable pub key : Refusal → Key
key r = (r.directive, text r.reason)

unfoldable pub key_eq : Key → Key → Bool
key_eq (a, b) (c, d) = text_eq a c && text_eq b d

-- index[key]
unfoldable pub index_of : Key → List (Key × ℕ) → Option ℕ
index_of k [] = none
index_of k ((j, i) ∷ index) = if key_eq k j then some i else index_of k index

-- agg[i]["count"] += 1
unfoldable pub bump : ℕ → List Tally → List Tally
bump i [] = []
bump zero (t ∷ agg) = record t { count = t.count + 1 } ∷ agg
bump (suc i) (t ∷ agg) = t ∷ bump i agg

-- The variables of the loop that adds up identical refusals.
pub record Table : Type 0 where
  pub agg : List Tally
  pub index : List (Key × ℕ)

abbrev pub empty_table : Table
empty_table = record { agg = []; index = [] }

unfoldable pub tally : Table → Refusal → Table
tally t r = elim (index_of (key r) t.index) [
  | some i ↦ record t { agg = bump i t.agg }
  | none ↦ record {
    agg = t.agg ++ record { refusal = r; count = 1 } ∷ [];
    index = t.index ++ (key r, length t.agg) ∷ [];
  }
]

unfoldable pub tally_all : Table → List Refusal → Table
tally_all t [] = t
tally_all t (r ∷ rs) = tally_all (tally t r) rs

pub record ListEntry : Type 0 where
  pub name : Text
  pub attribution : Text
  pub source : Text

pub record Bundle : Type 0 where
  pub name : Text
  pub bundle_version : ℕ
  pub lists : List CompiledList
  pub refusals : List Tally

-- The loop over the lists of the configuration.
unfoldable pub compile_entries :
    List CompiledList × List Refusal → List ListEntry → List CompiledList × List Refusal
compile_entries acc [] = acc
compile_entries (lists, refusals) (e ∷ es) =
    let (lst, refs) = compile_list e.name e.attribution e.source in
    compile_entries (lists ++ lst ∷ [], refusals ++ refs) es

-- `compile_config` for a configuration with the right keys. It stops if the version is not positive.
unfoldable pub compile_config : Text → ℕ → List ListEntry → Option Bundle
compile_config name zero entries = none
compile_config name (suc v) entries =
    let (lists, refusals) = compile_entries ([], []) entries in
    some (record {
      name = name;
      bundle_version = suc v;
      lists = lists;
      refusals = (tally_all empty_table refusals).agg;
    })
