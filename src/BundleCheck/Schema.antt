-- ===== src/BundleCheck/Schema.antt =====
-- `check_manifest_schema` of tools/list_bundle_check.py.
use xr_browser.Prelude.{
  flag, ℕ, ◌+◌, String, Text, Bool, true, false, not, ◌||◌, ◌&&◌, Option, none, some, List, [], ◌∷◌,
  ◌++◌, codes, all, is_ascii_digit, leb, ◌==◌, length, text_mem, if◌then◌else◌,
}
use xr_browser.Json.{Json, int, str, arr, obj, Fields, items, keys, get}
use xr_browser.ListPackage.{◌>>=◌, iterate, is_int, is_filled, or_null}

-- What the frozen schema says: the properties and which of them are required.
pub record Schema : Type 0 where
  pub properties : List Text
  pub required : List Text

-- docs/contracts/list-bundle-manifest-v1.schema.json
abbrev pub frozen : Schema
frozen = record {
  properties =
      codes "schema_version"
      ∷ codes "bundle_id"
      ∷ codes "created_epoch"
      ∷ codes "last_known_good_bundle_id"
      ∷ codes "lists"
      ∷ codes "key_pin"
      ∷ [];
  required =
      codes "schema_version"
      ∷ codes "bundle_id"
      ∷ codes "created_epoch"
      ∷ codes "lists"
      ∷ codes "key_pin"
      ∷ [];
}

pub data SchemaFailure : Type 0 where
  extra_keys missing_keys bad_key_pin : SchemaFailure
  wrong_type : String → SchemaFailure
  bad_entry bad_name bad_sha bad_rules bad_attribution : ℕ → SchemaFailure

-- The types of the table `types`.
pub data Declared : Type 0 where
  integer string array : Declared

abbrev pub has_type : Declared → Json → Bool
has_type integer v = is_int v
has_type string (str s) = true
has_type string _ = false
has_type array (arr vs) = true
has_type array _ = false

abbrev pub declared : List (String × Declared)
declared =
    ("schema_version", integer)
    ∷ ("bundle_id", string)
    ∷ ("created_epoch", integer)
    ∷ ("last_known_good_bundle_id", string)
    ∷ ("lists", array)
    ∷ ("key_pin", array)
    ∷ []

typed : Declared → Option Json → Bool
typed ty none = true
typed ty (some v) = has_type ty v

-- The loop over the types.
unfoldable pub type_failures : List (String × Declared) → Fields → List SchemaFailure
unfolding typed
type_failures [] man = []
type_failures ((key, ty) ∷ types) man =
    flag (not (typed ty (get (codes key) man))) (wrong_type key) ++ type_failures types man

-- The key pin is an array of texts that are not empty.
unfoldable pub pin_ok : Json → Bool
pin_ok (arr vs) = all is_filled (items vs)
pin_ok _ = false

-- A character of 0123456789abcdef.
abbrev pub is_lower_hex : ℕ → Bool
is_lower_hex c = is_ascii_digit c || (leb b'a' c && leb c b'f')

unfoldable pub sha_ok : Option Json → Bool
sha_ok (some (str s)) = length s == 64 && all is_lower_hex s
sha_ok _ = false

unfoldable pub count_ok : Option Json → Bool
count_ok (some (int n)) = true
count_ok _ = false

attribution_ok : Option Json → Bool
attribution_ok none = true
attribution_ok (some v) = is_filled v

-- The body of the loop over the lists.
unfoldable pub entry_failures : ℕ → Json → List SchemaFailure
unfolding attribution_ok
entry_failures i (obj e) =
    if not (
      all
        (λ k. text_mem k (codes "name" ∷ codes "sha256" ∷ codes "rules" ∷ codes "attribution" ∷ []))
        (keys e))
    then bad_entry i ∷ []
    else (flag (not (is_filled (or_null (get (codes "name") e)))) (bad_name i)
        ++ (flag (not (sha_ok (get (codes "sha256") e))) (bad_sha i)
            ++ (flag (not (count_ok (get (codes "rules") e))) (bad_rules i)
                ++ flag (not (attribution_ok (get (codes "attribution") e))) (bad_attribution i))))
entry_failures i _ = bad_entry i ∷ []

unfoldable pub entries_failures : ℕ → List Json → List SchemaFailure
entries_failures i [] = []
entries_failures i (e ∷ es) = entry_failures i e ++ entries_failures (i + 1) es

-- man.get("lists", []), run through
listed : Option Json → Option (List Json)
listed none = some []
listed (some v) = iterate v

-- The violations found in a manifest, in order; `none` where its lists cannot be run through.
unfoldable pub check_manifest_schema : Schema → Fields → Option (List SchemaFailure)
unfolding listed
check_manifest_schema schema man = listed (get (codes "lists") man) >>= λ lists. some (
    flag (not (all (λ k. text_mem k schema.properties) (keys man))) extra_keys
    ++ (flag (not (all (λ k. text_mem k (keys man)) schema.required)) missing_keys
        ++ (type_failures declared man
            ++ (flag (not (pin_ok (or_null (get (codes "key_pin") man)))) bad_key_pin
                ++ entries_failures 0 lists))))
