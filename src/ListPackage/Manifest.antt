-- ===== src/ListPackage/Manifest.antt =====
-- xr-lists/sign.py: the manifest of a bundle, and the command that writes it.
use xr_browser.Prelude.{
  ℕ, String, Text, true, false, not, ◌||◌, Option, none, some, List, [], ◌∷◌, ◌++◌, codes, any,
  filter, map, is_empty, has_char, split, if◌then◌else◌,
}
use xr_browser.Json.{Json, int, str, arr, obj, Fields, end, field, items, arr_of, canonical}
use xr_browser.ListPackage.{
  Python, ◌>>=◌, at_key, get_of, iterate, len_of, map_all, or_null, holds_key,
}
use xr_browser.ListPackage.Digest.{list_sha}

-- What check_bundle_shape returns, but for None.
pub data BadShape : Type 0 where
  wrong_schema lists_not_array : BadShape
  list_missing : String → BadShape

-- How cmd_manifest ends; `wrote` has the text of the file.
pub data Written : Type 0 where
  bad_bundle : BadShape → Written
  bad_key_pin raised : Written
  wrote : Text → Written

-- The arguments of the command line, the epoch as `main` admits it.
pub record Args : Type 0 where
  pub bundle_id : Text
  pub epoch : ℕ
  pub key_pin : Text
  pub lkg : Option Text

abbrev pub lkg_field : Option Text → Fields
lkg_field none = end
lkg_field (some lkg) = field (codes "last_known_good_bundle_id") (str lkg) end

-- [p for p in key_pin.split(",") if p]
unfoldable pub pins_of : Text → List Text
pins_of key_pin = filter (λ t. not (is_empty t)) (split b',' key_pin)

abbrev pub shape_of : Option (Option String) → Option (Option BadShape)
shape_of none = none
shape_of (some none) = some none
shape_of (some (some k)) = some (some (list_missing k))

-- The dictionary of build_manifest.
abbrev pub manifest_of : Text → ℕ → List Text → Option Text → List Json → Fields
manifest_of bundle_id epoch key_pin lkg entries = field (codes "bundle_id") (str bundle_id) (
    field (codes "created_epoch") (int epoch) (
      field (codes "key_pin") (arr (arr_of (map str key_pin))) (
        field (codes "lists") (arr (arr_of entries))
          (field (codes "schema_version") (int 1) (lkg_field lkg)))))

module _ (p : Python) where
  unfoldable pub manifest_entry : Json → Option Json
  manifest_entry lst = do
    attribution ← at_key "attribution" lst
    name ← at_key "name" lst
    rules ← at_key "rules" lst
    count ← len_of rules
    sha ← list_sha p lst
    some (
        obj (
          field (codes "attribution") attribution (
            field (codes "name") name
              (field (codes "rules") (int count) (field (codes "sha256") (str sha) end)))))

  unfoldable pub build_manifest : Json → Text → ℕ → List Text → Option Text → Option Fields
  build_manifest bundle bundle_id epoch key_pin lkg = do
    lists ← at_key "lists" bundle
    listed ← iterate lists
    entries ← map_all manifest_entry listed
    some (manifest_of bundle_id epoch key_pin lkg entries)

  -- The first key that a list lacks.
  unfoldable pub missing_key : List String → Json → Option (Option String)
  missing_key [] lst = some none
  missing_key (k ∷ ks) lst = elim (holds_key p k lst) [
    | none ↦ none
    | some false ↦ some (some k)
    | some true ↦ missing_key ks lst
  ]

  unfoldable pub first_missing : List Json → Option (Option String)
  first_missing [] = some none
  first_missing (lst ∷ lists) = elim (missing_key ("name" ∷ "attribution" ∷ "rules" ∷ []) lst) [
    | none ↦ none
    | some (some k) ↦ some (some k)
    | some none ↦ first_missing lists
  ]

  lists_shape : Json → Option (Option BadShape)
  lists_shape (arr vs) = shape_of (first_missing (items vs))
  lists_shape _ = some (some lists_not_array)

  unfoldable pub check_bundle_shape : Json → Option (Option BadShape)
  unfolding lists_shape
  check_bundle_shape bundle = do
    schema ← get_of "schema" bundle
    version ← get_of "schema_version" bundle
    lists ← get_of "lists" bundle
    elim (not (p.same (or_null schema) (str (codes "xr-list-bundle")))
        || not (p.same (or_null version) (int 1))) [
          | true ↦ some (some wrong_schema)
          | false ↦ lists_shape (or_null lists)
        ]

  written : Option Fields → Written
  written none = raised
  written (some man) = wrote (canonical (obj man) ++ b'\n' ∷ [])

  unfoldable pub cmd_manifest : Args → Json → Written
  unfolding written
  cmd_manifest a bundle = elim (check_bundle_shape bundle) [
    | none ↦ raised
    | some (some bad) ↦ bad_bundle bad
    | some none ↦
        if is_empty (pins_of a.key_pin) || any (has_char b' ') (pins_of a.key_pin)
        then bad_key_pin
        else written (build_manifest bundle a.bundle_id a.epoch (pins_of a.key_pin) a.lkg)
  ]
