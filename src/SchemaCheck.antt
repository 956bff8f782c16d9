-- ===== src/SchemaCheck.antt =====
-- tools/xr_schema.py: `_deref`, `_validate` and `validate_document`. A Python exception is `none`.
pub mod Conforming
pub mod Checked
pub mod Readings
pub mod Described
pub mod Steps
pub mod Validated
mod Tests
use xr_browser.Prelude.{
  ℕ, String, Text, Bool, true, false, not, ◌&&◌, ◌==◌, Option, none, some, List, [], ◌∷◌, ◌++◌, map,
  any, codes, flag, has_text, split, text_eq, text_mem, Dict, lookup, if◌then◌else◌,
}
use xr_browser.Json.{
  Json, null, bool, int, neg, float, str, arr, obj, Items, nil, Fields, end, field, items, keys,
  get,
}
use xr_browser.ListPackage.{Python, ◌>>=◌, iterate, is_int, or_null, truthy}

pub data Problem : Type 0 where
  expected : Text → Problem
  additional_property missing_property not_in_enum not_const must_be_false : Problem

-- The keys from the root to a value, the last one first.
abbrev pub Place : Type 0
Place = List Json

abbrev pub Errors : Type 0
Errors = List (Place × Problem)

-- The errors of two steps, unless one of them raises.
abbrev pub join : Option Errors → Option Errors → Option Errors
join none b = none
join (some es) none = none
join (some es) (some more) = some (es ++ more)

abbrev pub fields_of : Json → Option Fields
fields_of (obj fs) = some fs
fields_of _ = none

-- s.lstrip("#/")
unfoldable pub lstrip_hash : Text → Text
lstrip_hash [] = []
lstrip_hash (c ∷ s) = if any (λ d. c == d) (codes "#/") then lstrip_hash s else c ∷ s

-- The loop of _deref.
unfoldable pub resolve : List Text → Json → Option Json
resolve [] node = some node
resolve (part ∷ parts) (obj fs) = get part fs >>= resolve parts
resolve (part ∷ parts) _ = none

abbrev pub pointed : Json → Json → Option Json
pointed root (str ref) = resolve (split b'/' (lstrip_hash ref)) root
pointed root _ = none

-- `value in text`, which wants a text
abbrev pub text_holds : Json → Text → Option Bool
text_holds (str s) t = some (has_text s t)
text_holds _ t = none

-- `value in d`, for a value that can be hashed
abbrev pub keys_hold : Json → Fields → Option Bool
keys_hold (str s) fs = some (text_mem s (keys fs))
keys_hold (arr vs) fs = none
keys_hold (obj gs) fs = none
keys_hold _ fs = some false

-- `value in container`
unfoldable pub contains : Python → Json → Json → Option Bool
contains p value (arr vs) = some (any (p.same value) (items vs))
contains p value (str t) = text_holds value t
contains p value (obj fs) = keys_hold value fs
contains p value _ = none

abbrev pub is_array : Json → Bool
is_array (arr vs) = true
is_array _ = false

abbrev pub is_text : Json → Bool
is_text (str s) = true
is_text _ = false

abbrev pub is_bool : Json → Bool
is_bool (bool b) = true
is_bool _ = false

abbrev pub is_false : Json → Bool
is_false (bool b) = not b
is_false _ = false

abbrev pub is_named : Text → Option Json → Bool
is_named name (some (str t)) = text_eq t name
is_named name _ = false

-- Whether schema.get("type") is the text.
unfoldable pub has_type : String → Fields → Bool
has_type name rules = is_named (codes name) (get (codes "type") rules)

-- The branches of _validate on the types other than "object".
unfoldable pub type_problems : Json → Fields → List Problem
type_problems node rules =
    if has_type "array" rules
    then flag (not (is_array node)) (expected (codes "array"))
    else if has_type "string" rules
    then flag (not (is_text node)) (expected (codes "string"))
    else if has_type "integer" rules
    then flag (not (is_int node)) (expected (codes "integer"))
    else if has_type "boolean" rules
    then flag (not (is_bool node)) (expected (codes "boolean"))
    else []

abbrev pub under : Place → Problem → Place × Problem
under place problem = (place, problem)

abbrev pub placed : Place → List Problem → Errors
placed place = map (under place)

abbrev pub one_problem : Place → Bool → Problem → Option Errors
one_problem place test problem = some (placed place (flag test problem))

unfoldable pub extra_errors : Fields → Fields → Place → Fields → Errors
extra_errors rules props place end = []
extra_errors rules props place (field k v fs) =
    placed (str k ∷ place) (
      flag
        (is_false (or_null (get (codes "additionalProperties") rules))
          && not (text_mem k (keys props)))
        additional_property)
    ++ extra_errors rules props place fs

-- `req in node`, for an object
unfoldable pub is_there : Fields → Json → Option Bool
is_there fs (str k) = some (text_mem k (keys fs))
is_there fs (arr vs) = none
is_there fs (obj gs) = none
is_there fs _ = some false

unfoldable pub required_errors : Fields → Place → List Json → Option Errors
required_errors fs place [] = some []
required_errors fs place (req ∷ reqs) =
    join (is_there fs req >>= λ there. one_problem (req ∷ place) (not there) missing_property)
      (required_errors fs place reqs)

-- What checks a value against a schema.
abbrev pub Checker : Type 0
Checker = Json → Place → Option Errors

abbrev pub property_error : Text → Json → Place → Option Checker → Option Errors
property_error k sub place none = some []
property_error k sub place (some check) = check sub (str k ∷ place)

-- The loop over the properties; `checks` has the checker of each value of the object.
unfoldable pub property_errors : Dict Checker → Place → Fields → Option Errors
property_errors checks place end = some []
property_errors checks place (field k sub props) =
    join (property_error k sub place (lookup k checks)) (property_errors checks place props)

-- schema.get("properties", {}), which must be an object
abbrev pub props_of : Option Json → Option Fields
props_of none = some end
props_of (some v) = fields_of v

-- What `schema.get("required", [])` runs through.
abbrev pub required_of : Option Json → Option (List Json)
required_of none = some []
required_of (some v) = iterate v

-- The branch of _validate for an object.
unfoldable pub object_errors : Fields → Dict Checker → Fields → Place → Option Errors
object_errors fs checks rules place = props_of (get (codes "properties") rules) >>= λ props.
    join (some (extra_errors rules props place fs)) (
      join (required_of (get (codes "required") rules) >>= required_errors fs place)
        (property_errors checks place props))

module _ (p : Python) where
  -- What the value of "$ref" makes of a schema; without one, the schema stands.
  abbrev pub deref_at : Json → Fields → Option Json → Option Json
  deref_at root schema none = some (obj schema)
  deref_at root schema (some ref) = if truthy p ref then pointed root ref else some (obj schema)

  -- _deref: one pointer into the root
  unfoldable pub deref : Json → Fields → Option Json
  deref root schema = deref_at root schema (get (codes "$ref") schema)

  unfoldable pub enum_errors : Json → Place → Option Json → Option Errors
  enum_errors node place none = some []
  enum_errors node place (some enum) =
      contains p node enum >>= λ there. one_problem place (not there) not_in_enum

  unfoldable pub const_errors : Json → Place → Option Json → Option Errors
  const_errors node place none = some []
  const_errors node place (some value) = one_problem place (not (p.same node value)) not_const

  -- The tests at the end of _validate.
  unfoldable pub value_errors : Json → Fields → Place → Option Errors
  value_errors node rules place = join (enum_errors node place (get (codes "enum") rules)) (
      join (const_errors node place (get (codes "const") rules)) (
        one_problem place
          (truthy p (or_null (get (codes "const_false") rules)) && not (is_false node))
          must_be_false))

  -- _validate under the rules of a schema; an object comes with the checkers of its values.
  unfoldable pub node_errors : Json → Dict Checker → Fields → Place → Option Errors
  node_errors node checks rules place =
      if has_type "object" rules
      then elim (fields_of node) [
        | none ↦ some ((place, expected (codes "object")) ∷ [])
        | some fs ↦ join (object_errors fs checks rules place) (value_errors node rules place)
      ]
      else join (some (placed place (type_problems node rules))) (value_errors node rules place)

  module _ (root : Json) where
    -- The rules of a schema, after _deref.
    unfoldable pub rules_of : Json → Option Fields
    rules_of schema = fields_of schema >>= λ s. deref root s >>= fields_of

    abbrev pub by_rules : Json → Dict Checker → Checker
    by_rules node checks schema place =
        rules_of schema >>= λ rules. node_errors node checks rules place

    -- _validate, as what checks a value: the recursion of the source is on the value.
    unfoldable mutual
      pub validate : Json → Checker
      validate null = by_rules null []
      validate (bool b) = by_rules (bool b) []
      validate (int n) = by_rules (int n) []
      validate (neg n) = by_rules (neg n) []
      validate (float t) = by_rules (float t) []
      validate (str s) = by_rules (str s) []
      validate (arr vs) = by_rules (arr vs) []
      validate (obj fs) = by_rules (obj fs) (field_checks fs)

      pub field_checks : Fields → Dict Checker
      field_checks end = []
      field_checks (field k v fs) = (k, validate v) ∷ field_checks fs

  unfoldable pub validate_document : Json → Json → Option Errors
  validate_document doc schema = validate schema doc schema []
