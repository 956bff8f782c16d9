-- ===== src/BundleCheck/Binding.antt =====
-- `check_binding` of tools/list_bundle_check.py: the manifest against the bundle that it pins.
use xr_browser.Prelude.{flag, true, false, not, Option, some, List, [], ◌∷◌, ◌++◌, ◌==◌}
use xr_browser.Json.{Json, int, str}
use xr_browser.ListPackage.{Python, ◌>>=◌, at_key, get_of, iterate, len_of, or_null}
use xr_browser.ListPackage.Digest.{list_sha}

pub data BindingFailure : Type 0 where
  list_count list_name list_digest rule_count list_attribution : BindingFailure

module _ (p : Python) where
  -- The body of the loop: a list of the bundle and the entry of the manifest.
  unfoldable pub pair_failures : Json → Json → Option (List BindingFailure)
  pair_failures b m = do
    name ← at_key "name" b
    claimed ← get_of "name" m
    got ← list_sha p b
    sha ← get_of "sha256" m
    rules ← at_key "rules" b
    count ← len_of rules
    counted ← get_of "rules" m
    attribution ← at_key "attribution" b
    attributed ← get_of "attribution" m
    some (
        flag (not (p.same name (or_null claimed))) list_name
        ++ (flag (not (p.same (or_null sha) (str got))) list_digest
            ++ (flag (not (p.same (or_null counted) (int count))) rule_count
                ++ flag (not (p.same (or_null attributed) attribution)) list_attribution)))

  -- The loop over zip(bl, ml).
  unfoldable pub pairs_failures : List Json → List Json → Option (List BindingFailure)
  pairs_failures (b ∷ bl) (m ∷ ml) = do
    here ← pair_failures b m
    later ← pairs_failures bl ml
    some (here ++ later)
  pairs_failures _ _ = some []

  -- The violations found; `none` is a Python exception.
  unfoldable pub check_binding : Json → Json → Option (List BindingFailure)
  check_binding bundle man = do
    lists ← at_key "lists" bundle
    entries ← at_key "lists" man
    n ← len_of lists
    k ← len_of entries
    bl ← iterate lists
    ml ← iterate entries
    elim (n == k) [ false ↦ some (list_count ∷ []) | true ↦ pairs_failures bl ml ]
