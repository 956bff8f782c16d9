-- ===== src/SchemaCheck/Checked.antt =====
-- The documents that `_validate` finds no error in, by the tests that it makes.
use xr_browser.Prelude.{◌≡◌, Text, true, false, none, some, List, codes, All, text_mem}
use xr_browser.Json.{Json, obj, Fields, end, field, keys, get}
use xr_browser.ListPackage.{Python, is_int, or_null, truthy}
use xr_browser.SchemaCheck.{
  contains, is_array, is_text, is_bool, is_false, has_type, is_there, props_of, required_of,
  rules_of,
}

-- The type of a value that is no object, where the rules name one.
pub record TypePasses (node : Json) (rules : Fields) : Type 0 where
  pub array : has_type "array" rules ≡ true → is_array node ≡ true
  pub string : has_type "string" rules ≡ true → is_text node ≡ true
  pub integer : has_type "integer" rules ≡ true → is_int node ≡ true
  pub boolean : has_type "boolean" rules ≡ true → is_bool node ≡ true

module _ (p : Python) where
  -- A value that the tests at the end let through.
  pub record ValuePasses (node : Json) (rules : Fields) : Type 0 where
    pub enum : (c : Json) → get (codes "enum") rules ≡ some c → contains p node c ≡ some true
    pub const : (c : Json) → get (codes "const") rules ≡ some c → p.same node c ≡ true
    pub const_false :
        truthy p (or_null (get (codes "const_false") rules)) ≡ true → is_false node ≡ true

-- An object without keys beyond the properties, where the rules exclude them.
abbrev pub ClosedPasses : Fields → Fields → Fields → Type 0
ClosedPasses rules props fs =
    is_false (or_null (get (codes "additionalProperties") rules)) ≡ true
    → All (λ k. text_mem k (keys props) ≡ true) (keys fs)

module _ (p : Python) (root : Json) where
  mutual
    pub data Passes : Json → Json → Type 0 where
      object :
          {fs rules props : Fields} {required : List Json} {schema : Json}
          → rules_of p root schema ≡ some rules
          → has_type "object" rules ≡ true
          → props_of (get (codes "properties") rules) ≡ some props
          → ClosedPasses rules props fs
          → required_of (get (codes "required") rules) ≡ some required
          → All (λ req. is_there fs req ≡ some true) required
          → PassAll fs props
          → ValuePasses p (obj fs) rules
          → Passes (obj fs) schema
      plain :
          {node schema : Json} {rules : Fields}
          → rules_of p root schema ≡ some rules
          → has_type "object" rules ≡ false
          → TypePasses node rules
          → ValuePasses p node rules
          → Passes node schema

    -- The properties that the object has conform to their schemas.
    pub data PassAll : Fields → Fields → Type 0 where
      no_more : {fs : Fields} → PassAll fs end
      absent :
          {k : Text} {sub : Json} {fs props : Fields}
          → get k fs ≡ none
          → PassAll fs props
          → PassAll fs (field k sub props)
      present :
          {k : Text} {sub v : Json} {fs props : Fields}
          → get k fs ≡ some v
          → Passes v sub
          → PassAll fs props
          → PassAll fs (field k sub props)
