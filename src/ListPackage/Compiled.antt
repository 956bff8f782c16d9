-- ===== src/ListPackage/Compiled.antt =====
-- The programs of xr-lists on a bundle that xr-lists/compile.py has made.
use xr_browser.Prelude.{
  ℕ, suc, ◌≡◌, refl, ap, Text, true, Option, none, some, List, [], ◌∷◌, codes, map, length,
  length-map, text_eq,
}
use xr_browser.Json.{Json, int, str, arr, obj, end, field, items, arr_of, get, canonical}
use xr_browser.ListCompiler.Bundle.{CompiledRule, CompiledList, Bundle}
use xr_browser.ListPackage.{Python, at_key, get_of, iterate, len_of, map_all, holds_key}
use xr_browser.ListPackage.Digest.{optional_fields, rule_projection, list_canonical_bytes, list_sha}
use xr_browser.ListPackage.Manifest.{
  shape_of, manifest_of, manifest_entry, build_manifest, missing_key, first_missing,
  check_bundle_shape,
}
use xr_browser.ListPackage.Bundled.{
  rule_json, list_json, bundle_json, texts_field, resource_field, action_text, kind_text,
}

pub items-arr_of : (vs : List Json) → items (arr_of vs) ≡ vs
items-arr_of [] = refl
items-arr_of (v ∷ vs) = ap (λ t. v ∷ t) (items-arr_of vs)

-- f is applied to every element, if it is applied to each.
map_all_total {ℓ κ μ} :
    {A : Type ℓ} {B : Type κ} {C : Type μ} (f : B → Option C) (g : A → B) (xs : List A)
    → ((x : A) → (c : C) × (f (g x) ≡ some c))
    → (cs : List C) × (map_all f (map g xs) ≡ some cs) × (length cs ≡ length xs)
map_all_total f g [] h = ([], refl, refl)
map_all_total f g (x ∷ xs) h =
    let (c, e) = h x in
    let (cs, es, n) = map_all_total f g xs h in (c ∷ cs, rw (e, es) refl, ap suc n)

-- The manifest's entry for a compiled list with a digest.
abbrev pub entry_of : CompiledList → Text → Json
entry_of l sha = obj (
    field (codes "attribution") (str l.attribution) (
      field (codes "name") (str l.name)
        (field (codes "rules") (int (length l.rules)) (field (codes "sha256") (str sha) end))))

module _ (p : Python) where
  projected :
      (action filter id kind : Json) (ds es : List Text) (o : Option Text)
      → (v : Json) × (rule_projection p (
            obj (
              field (codes "action") action (
                field (codes "filter") filter (
                  field (codes "id") id (
                    field (codes "kind") kind (
                      texts_field "domains" ds
                        (texts_field "exclude_domains" es (resource_field o))))))))
          ≡ some v)
  unfolding rule_projection at_key get_of get text_eq optional_fields
  projected action filter id kind [] [] none = (_, refl)
  projected action filter id kind [] [] (some r) = (_, refl)
  projected action filter id kind [] (e ∷ es) none = (_, refl)
  projected action filter id kind [] (e ∷ es) (some r) = (_, refl)
  projected action filter id kind (d ∷ ds) [] none = (_, refl)
  projected action filter id kind (d ∷ ds) [] (some r) = (_, refl)
  projected action filter id kind (d ∷ ds) (e ∷ es) none = (_, refl)
  projected action filter id kind (d ∷ ds) (e ∷ es) (some r) = (_, refl)

  rule_projection_compiled :
      (r : CompiledRule) → (v : Json) × (rule_projection p (rule_json r) ≡ some v)
  unfolding rule_json
  rule_projection_compiled r =
      projected (str (codes (action_text r.source.action))) (str r.source.filter) (str r.id)
        (str (codes (kind_text r.source.kind))) r.source.domains r.source.exclude_domains
        r.source.resource

  -- A compiled list has canonical bytes, and so a digest.
  pub list_sha_compiled :
      (l : CompiledList) → (t : Text) × (list_sha p (list_json l) ≡ some (p.sha256 t))
  unfolding list_sha list_canonical_bytes list_json at_key get text_eq iterate
  list_sha_compiled l =
      let (vs, e, n) =
        map_all_total (rule_projection p) rule_json l.rules rule_projection_compiled in
      let bytes = canonical (
        obj (
          field (codes "attribution") (str l.attribution)
            (field (codes "name") (str l.name) (field (codes "rules") (arr (arr_of vs)) end)))) in
      (bytes, rw (items-arr_of (map rule_json l.rules), e) refl)

  manifest_entry_compiled :
      (l : CompiledList) (sha : Text)
      → list_sha p (list_json l) ≡ some sha
      → manifest_entry p (list_json l) ≡ some (entry_of l sha)
  unfolding manifest_entry list_json at_key get text_eq len_of iterate
  manifest_entry_compiled l sha e =
      rw (e, items-arr_of (map rule_json l.rules), length-map rule_json l.rules) refl

  -- The entries of the manifest, list by list.
  pub data AreEntries : List CompiledList → List Json → Type 0 where
    no_lists : AreEntries [] []
    next_list :
        (l : CompiledList) (bytes : Text) {ls : List CompiledList} {es : List Json}
        → list_sha p (list_json l) ≡ some (p.sha256 bytes)
        → AreEntries ls es
        → AreEntries (l ∷ ls) (entry_of l (p.sha256 bytes) ∷ es)

  pub entries_compiled :
      (ls : List CompiledList)
      → (es : List Json) × (map_all (manifest_entry p) (map list_json ls) ≡ some es)
        × AreEntries ls es
  entries_compiled [] = ([], refl, no_lists)
  entries_compiled (l ∷ ls) =
      let (bytes, sha) = list_sha_compiled l in
      let (es, e, rest) = entries_compiled ls in
      (
        entry_of l (p.sha256 bytes) ∷ es,
        rw (manifest_entry_compiled l (p.sha256 bytes) sha, e) refl,
        next_list l bytes sha rest,
      )

  -- The manifest of a compiled bundle.
  pub build_manifest_compiled :
      (b : Bundle) (bundle_id : Text) (epoch : ℕ) (pins : List Text) (lkg : Option Text)
      (es : List Json)
      → map_all (manifest_entry p) (map list_json b.lists) ≡ some es
      → build_manifest p (bundle_json b) bundle_id epoch pins lkg
        ≡ some (manifest_of bundle_id epoch pins lkg es)
  unfolding build_manifest bundle_json at_key get text_eq iterate
  build_manifest_compiled b bundle_id epoch pins lkg es e =
      rw (items-arr_of (map list_json b.lists), e) refl

  shape_lists : (ls : List CompiledList) → first_missing p (map list_json ls) ≡ some none
  unfolding first_missing missing_key holds_key list_json text_eq
  shape_lists [] = refl
  shape_lists (l ∷ ls) = shape_lists ls

  pub check_bundle_shape_compiled :
      (b : Bundle)
      → p.same (str (codes "xr-list-bundle")) (str (codes "xr-list-bundle")) ≡ true
      → p.same (int 1) (int 1) ≡ true
      → check_bundle_shape p (bundle_json b) ≡ some none
  unfolding check_bundle_shape bundle_json get_of get text_eq
  check_bundle_shape_compiled b s n =
      let found : first_missing p (items (arr_of (map list_json b.lists))) ≡ some none =
        rw (items-arr_of (map list_json b.lists)) (shape_lists b.lists) in
      rw (s, n) (ap shape_of found)
