-- ===== src/SchemaCheck/Conforming.antt =====
-- The documents that `_validate` finds no error in, told by the JSON values of schema and document.
use xr_browser.Prelude.{
  ℕ, Bool, ◌⊎◌, ◌≡◌, ◌≢◌, Text, true, false, Option, none, some, List, [], ◌∷◌, codes, All, Some,
  has_text, text_mem, split,
}
use xr_browser.Json.{
  Json, bool, int, neg, str, arr, obj, Items, Fields, end, field, items, keys, get,
}
use xr_browser.ListPackage.{Python, iterate, truthy}
use xr_browser.SchemaCheck.{lstrip_hash}

-- From a value along keys to another one.
pub data Leads : List Text → Json → Json → Type 0 where
  there : {v : Json} → Leads [] v v
  down :
      {k : Text} {ks : List Text} {fs : Fields} {v w : Json}
      → get k fs ≡ some v
      → Leads ks v w
      → Leads (k ∷ ks) (obj fs) w

module _ (p : Python) where
  -- The rules of a schema: its own fields, or what its "$ref" points to from the root.
  pub data HasRules (root : Json) (schema : Fields) : Fields → Type 0 where
    own : get (codes "$ref") schema ≡ none → HasRules root schema schema
    unset :
        {ref : Json}
        → get (codes "$ref") schema ≡ some ref
        → truthy p ref ≡ false
        → HasRules root schema schema
    pointed :
        {ref : Text} {rules : Fields}
        → get (codes "$ref") schema ≡ some (str ref)
        → ref ≢ []
        → Leads (split b'/' (lstrip_hash ref)) root (obj rules)
        → HasRules root schema rules

-- The type that the rules name, for a value that is checked as no object.
pub record HasPlainType (node : Json) (rules : Fields) : Type 0 where
  pub array : get (codes "type") rules ≡ some (str (codes "array")) → (vs : Items) × (node ≡ arr vs)
  pub string : get (codes "type") rules ≡ some (str (codes "string")) → (t : Text) × (node ≡ str t)
  pub integer :
      get (codes "type") rules ≡ some (str (codes "integer"))
      → ((n : ℕ) × (node ≡ int n)) ⊎ ((n : ℕ) × (node ≡ neg n))
  pub boolean :
      get (codes "type") rules ≡ some (str (codes "boolean")) → (b : Bool) × (node ≡ bool b)

module _ (p : Python) where
  -- Python's `in`: an element of a list, a part of a text, or a key of an object.
  pub data Among : Json → Json → Type 0 where
    in_list : {v : Json} {ws : Items} → Some (λ w. p.same v w ≡ true) (items ws) → Among v (arr ws)
    in_text : {s t : Text} → has_text s t ≡ true → Among (str s) (str t)
    in_keys : {s : Text} {fs : Fields} → text_mem s (keys fs) ≡ true → Among (str s) (obj fs)

  -- A value that "enum", "const" and "const_false" allow.
  pub record IsAllowed (node : Json) (rules : Fields) : Type 0 where
    pub enum : (c : Json) → get (codes "enum") rules ≡ some c → Among node c
    pub const : (c : Json) → get (codes "const") rules ≡ some c → p.same node c ≡ true
    pub const_false :
        (c : Json)
        → get (codes "const_false") rules ≡ some c
        → truthy p c ≡ true
        → node ≡ bool false

-- What the rules say of properties and of required keys.
pub data HasProps : Option Json → Fields → Type 0 where
  no_props : HasProps none end
  props : {ps : Fields} → HasProps (some (obj ps)) ps

pub data Requires : Option Json → List Json → Type 0 where
  nothing : Requires none []
  each : {v : Json} {ks : List Json} → iterate v ≡ some ks → Requires (some v) ks

pub data IsThere (fs : Fields) : Json → Type 0 where
  key : {k : Text} → text_mem k (keys fs) ≡ true → IsThere fs (str k)

-- An object without keys beyond the properties, where the rules exclude them.
abbrev pub IsClosed : Fields → Fields → Fields → Type 0
IsClosed rules ps fs =
    get (codes "additionalProperties") rules ≡ some (bool false)
    → All (λ k. text_mem k (keys ps) ≡ true) (keys fs)

module _ (p : Python) (root : Json) where
  mutual
    pub data Conforms : Json → Json → Type 0 where
      object :
          {fs schema rules ps : Fields} {required : List Json}
          → HasRules p root schema rules
          → get (codes "type") rules ≡ some (str (codes "object"))
          → HasProps (get (codes "properties") rules) ps
          → IsClosed rules ps fs
          → Requires (get (codes "required") rules) required
          → All (IsThere fs) required
          → ConformAll fs ps
          → IsAllowed p (obj fs) rules
          → Conforms (obj fs) (obj schema)
      plain :
          {node : Json} {schema rules : Fields}
          → HasRules p root schema rules
          → get (codes "type") rules ≢ some (str (codes "object"))
          → HasPlainType node rules
          → IsAllowed p node rules
          → Conforms node (obj schema)

    -- The properties that the object has conform to their schemas.
    pub data ConformAll : Fields → Fields → Type 0 where
      no_more : {fs : Fields} → ConformAll fs end
      absent :
          {k : Text} {sub : Json} {fs ps : Fields}
          → get k fs ≡ none
          → ConformAll fs ps
          → ConformAll fs (field k sub ps)
      present :
          {k : Text} {sub v : Json} {fs ps : Fields}
          → get k fs ≡ some v
          → Conforms v sub
          → ConformAll fs ps
          → ConformAll fs (field k sub ps)
