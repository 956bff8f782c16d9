-- ===== src/ListPackage/Digest.antt =====
-- xr-lists/bundle_bytes.py: the canonical bytes of a list and the digests.
use xr_browser.Prelude.{String, Text, Option, none, some, List, [], ◌∷◌, ◌++◌, codes, if◌then◌else◌}
use xr_browser.Json.{Json, arr, obj, Fields, end, field, arr_of, canonical, commas}
use xr_browser.ListPackage.{Python, ◌>>=◌, at_key, get_of, iterate, map_all, truthy}

-- OPTIONAL_RULE_KEYS
abbrev pub optional_rule_keys : List String
optional_rule_keys = "domains" ∷ "exclude_domains" ∷ "resource" ∷ []

module _ (p : Python) where
  kept : String → Option Json → Fields → Fields
  kept key none rest = rest
  kept key (some v) rest = if truthy p v then field (codes key) v rest else rest

  -- The loop over the optional keys.
  unfoldable pub optional_fields : List String → Json → Option Fields
  unfolding kept
  optional_fields [] r = some end
  optional_fields (key ∷ ks) r = do
    v ← get_of key r
    rest ← optional_fields ks r
    some (kept key v rest)

  unfoldable pub rule_projection : Json → Option Json
  rule_projection r = do
    action ← at_key "action" r
    filter ← at_key "filter" r
    id ← at_key "id" r
    kind ← at_key "kind" r
    rest ← optional_fields optional_rule_keys r
    some (
        obj (
          field (codes "action") action (
            field (codes "filter") filter
              (field (codes "id") id (field (codes "kind") kind rest)))))

  unfoldable pub list_canonical_bytes : Json → Option Text
  list_canonical_bytes lst = do
    attribution ← at_key "attribution" lst
    name ← at_key "name" lst
    rules ← at_key "rules" lst
    listed ← iterate rules
    projected ← map_all rule_projection listed
    some (
        canonical (
          obj (
            field (codes "attribution") attribution
              (field (codes "name") name (field (codes "rules") (arr (arr_of projected)) end)))))

  unfoldable pub list_sha : Json → Option Text
  list_sha lst = list_canonical_bytes lst >>= λ bytes. some (p.sha256 bytes)

  unfoldable pub bundle_digest : Json → Option Text
  bundle_digest bundle = do
    lists ← at_key "lists" bundle
    listed ← iterate lists
    parts ← map_all list_canonical_bytes listed
    some (p.sha256 (b'[' ∷ (commas parts ++ b']' ∷ [])))
