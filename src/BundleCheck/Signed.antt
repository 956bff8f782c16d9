-- ===== src/BundleCheck/Signed.antt =====
-- The manifest that xr-lists/sign.py writes for a compiled bundle, against tools/list_bundle_check.py.
use mathlib.Core.Path.{subst}
use xr_browser.Prelude.{
  ℕ, zero, suc, ◌+◌, ◌≡◌, refl, ap, Text, true, false, not, ◌==◌, Option, none, some, List, [], ◌∷◌,
  ◌++◌, All, All-append, Option-cases, split, inl, inr, all, any, has_char, length, length-map,
  is_empty, map, text_eq, filter, arith,
}
use xr_browser.Json.{Json, int, str, obj, Fields, get, canonical}
use xr_browser.ListCompiler.Outcome.{Refusal}
use xr_browser.ListCompiler.Bundle.{
  CompiledList, ListEntry, Bundle, compile_list, compile_entries, compile_config,
}
use xr_browser.ListPackage.{Python, at_key, get_of, iterate, len_of, is_filled}
use xr_browser.ListPackage.Digest.{list_sha}
use xr_browser.ListPackage.Manifest.{Args, wrote, manifest_of, pins_of, cmd_manifest}
use xr_browser.ListPackage.Bundled.{rule_json, list_json, bundle_json}
use xr_browser.ListPackage.Compiled.{
  items-arr_of, entry_of, AreEntries, no_lists, next_list, entries_compiled,
  build_manifest_compiled, check_bundle_shape_compiled,
}
use xr_browser.BundleCheck.Schema.{
  frozen, is_lower_hex, sha_ok, count_ok, pin_ok, type_failures, entry_failures, entries_failures,
  check_manifest_schema,
}
use xr_browser.BundleCheck.Binding.{pair_failures, pairs_failures, check_binding}

-- What the two programs rely on: texts and integers equal themselves, and a digest is 64 digits.
pub record IsPython (p : Python) : Type 0 where
  pub same_text : (s : Text) → p.same (str s) (str s) ≡ true
  pub same_int : (n : ℕ) → p.same (int n) (int n) ≡ true
  pub digest_length : (t : Text) → length (p.sha256 t) ≡ 64
  pub digest_hex : (t : Text) → all is_lower_hex (p.sha256 t) ≡ true

-- A name and an attribution that are not empty.
abbrev IsNamed : Text → Text → Type 0
IsNamed name attribution = (is_empty name ≡ false) × (is_empty attribution ≡ false)

abbrev ListIsNamed : CompiledList → Type 0
ListIsNamed l = IsNamed l.name l.attribution

filled : (s : Text) → is_empty s ≡ false → is_filled (str s) ≡ true
filled [] h = cc
filled (c ∷ s) h = refl

module _ (p : Python) (python : IsPython p) where
  entry_passes :
      (i : ℕ) (l : CompiledList) (bytes : Text)
      → ListIsNamed l
      → entry_failures i (entry_of l (p.sha256 bytes)) ≡ []
  unfolding entry_failures get text_eq sha_ok count_ok
  entry_passes i l bytes h =
      let sized : (length (p.sha256 bytes) == 64) ≡ true =
        ground (arith, python.digest_length bytes) in
      rw (filled l.name h.0, filled l.attribution h.1, sized, python.digest_hex bytes) refl

  entries_pass :
      (i : ℕ) {ls : List CompiledList} {es : List Json}
      → AreEntries p ls es
      → All ListIsNamed ls
      → entries_failures i es ≡ []
  unfolding entries_failures
  entries_pass i no_lists h = refl
  entries_pass i (next_list l bytes sha rest) h =
      rw (entry_passes i l bytes h.0) (entries_pass (i + 1) rest h.1)

  pair_passes :
      (l : CompiledList) (bytes : Text)
      → list_sha p (list_json l) ≡ some (p.sha256 bytes)
      → pair_failures p (list_json l) (entry_of l (p.sha256 bytes)) ≡ some []
  unfolding pair_failures list_json at_key get_of get text_eq len_of iterate
  pair_passes l bytes sha =
      rw
        (
          sha,
          items-arr_of (map rule_json l.rules),
          length-map rule_json l.rules,
          python.same_text l.name,
          python.same_text (p.sha256 bytes),
          python.same_int (length l.rules),
          python.same_text l.attribution,
        )
        refl

  pairs_pass :
      {ls : List CompiledList} {es : List Json}
      → AreEntries p ls es
      → pairs_failures p (map list_json ls) es ≡ some []
  unfolding pairs_failures
  pairs_pass no_lists = refl
  pairs_pass (next_list l bytes sha rest) = rw (pair_passes l bytes sha, pairs_pass rest) refl

  same_length :
      {ls : List CompiledList} {es : List Json} → AreEntries p ls es → length es ≡ length ls
  same_length no_lists = refl
  same_length (next_list l bytes sha rest) = ap suc (same_length rest)

  -- The pins of the command line are not empty.
  pins_filled :
      (ts : List Text) → all is_filled (map str (filter (λ t. not (is_empty t)) ts)) ≡ true
  pins_filled [] = refl
  pins_filled ([] ∷ ts) = pins_filled ts
  pins_filled ((c ∷ t) ∷ ts) = pins_filled ts

  schema_passes :
      (a : Args) (ls : List CompiledList) (es : List Json)
      → AreEntries p ls es
      → All ListIsNamed ls
      → check_manifest_schema frozen (manifest_of a.bundle_id a.epoch (pins_of a.key_pin) a.lkg es)
        ≡ some []
  unfolding check_manifest_schema get text_eq type_failures pin_ok iterate pins_of
  schema_passes a ls es entries h = elim (Option-cases a.lkg) [
    | inl e ↦
        rw
          (
            e,
            items-arr_of es,
            items-arr_of (map str (pins_of a.key_pin)),
            entries_pass 0 entries h,
            pins_filled (split b',' a.key_pin),
          )
          refl
    | inr (t, e) ↦
        rw
          (
            e,
            items-arr_of es,
            items-arr_of (map str (pins_of a.key_pin)),
            entries_pass 0 entries h,
            pins_filled (split b',' a.key_pin),
          )
          refl
  ]

  binding_passes :
      (a : Args) (b : Bundle) (es : List Json)
      → AreEntries p b.lists es
      → check_binding p
          (bundle_json b)
          (obj (manifest_of a.bundle_id a.epoch (pins_of a.key_pin) a.lkg es))
        ≡ some []
  unfolding check_binding bundle_json at_key get text_eq len_of iterate
  binding_passes a b es entries =
      let same : (length b.lists == length es) ≡ true = ground (arith, same_length entries) in
      rw
        (
          items-arr_of (map list_json b.lists),
          items-arr_of es,
          length-map list_json b.lists,
          same,
          items-arr_of (map list_json b.lists),
        )
        (pairs_pass entries)

-- The lists of a compiled bundle have the names and the attributions of the configuration.
compile_entries-ListIsNamed :
    (lists : List CompiledList) (fs : List Refusal) (es : List ListEntry)
    → All ListIsNamed lists
    → All (λ (e : ListEntry). IsNamed e.name e.attribution) es
    → All ListIsNamed (compile_entries (lists, fs) es).0
unfolding compile_entries compile_list
compile_entries-ListIsNamed lists fs [] h k = h
compile_entries-ListIsNamed lists fs (e ∷ es) h k =
    let (lst, refs) = compile_list e.name e.attribution e.source in
    compile_entries-ListIsNamed (lists ++ lst ∷ []) (fs ++ refs) es
      (All-append ListIsNamed lists (lst ∷ []) h (k.0, tt)) k.1

abbrev lists_of : Option Bundle → List CompiledList
lists_of none = []
lists_of (some b) = b.lists

compile_config-ListIsNamed :
    (name : Text) (version : ℕ) (entries : List ListEntry) (b : Bundle)
    → All (λ (e : ListEntry). IsNamed e.name e.attribution) entries
    → compile_config name version entries ≡ some b
    → All ListIsNamed b.lists
unfolding compile_config
compile_config-ListIsNamed name zero entries b h e = cc
compile_config-ListIsNamed name (suc v) entries b h e =
    subst (All ListIsNamed) (ap lists_of e) (compile_entries-ListIsNamed [] [] entries tt h)

-- What the command writes, and that the checks find nothing in it.
pub record IsAccepted (p : Python) (a : Args) (b : Bundle) : Type 0 where
  pub manifest : Fields
  pub written : cmd_manifest p a (bundle_json b) ≡ wrote (canonical (obj manifest) ++ b'\n' ∷ [])
  pub schema : check_manifest_schema frozen manifest ≡ some []
  pub binding : check_binding p (bundle_json b) (obj manifest) ≡ some []

-- For a bundle compiled from lists with names and attributions, and pins of which there is one at
-- least and none has a space, the manifest command writes a manifest that the schema check and the
-- binding check of the bundle both pass.
pub cmd_manifest-IsAccepted :
    (p : Python) (name : Text) (version : ℕ) (entries : List ListEntry) (b : Bundle) (a : Args)
    → IsPython p
    → All (λ (e : ListEntry). IsNamed e.name e.attribution) entries
    → compile_config name version entries ≡ some b
    → is_empty (pins_of a.key_pin) ≡ false
    → any (has_char b' ') (pins_of a.key_pin) ≡ false
    → IsAccepted p a b
unfolding cmd_manifest
cmd_manifest-IsAccepted p name version entries b a python named compiled pinned spaceless =
    let (es, e, are) = entries_compiled p b.lists in
    let shape = check_bundle_shape_compiled p b (python.same_text _) (python.same_int 1) in
    let built = build_manifest_compiled p b a.bundle_id a.epoch (pins_of a.key_pin) a.lkg es e in
    record {
      manifest = manifest_of a.bundle_id a.epoch (pins_of a.key_pin) a.lkg es;
      written = rw (shape, pinned, spaceless, built, cmd_manifest) refl;
      schema =
          schema_passes p python a b.lists es are
            (compile_config-ListIsNamed name version entries b named compiled);
      binding = binding_passes p python a b es are;
    }
