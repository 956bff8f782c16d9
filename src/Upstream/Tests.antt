-- ===== src/Upstream/Tests.antt =====
-- A drifted file and an added one, classified with concrete tools, and the theorems there.
use xr_browser.Prelude.{
  lookup, ◌≡◌, ◌↔◌, ◌⊎◌, ◌≤◌, refl, true, false, any, none, some, [], ◌∷◌, map, All, text_eq,
  starts_with, split, split_from, codes,
}
use xr_browser.Json.{text_le}
use xr_browser.PatchQueue.Paths.{escapes}
use xr_browser.Upstream.Class.{
  clean, drift, moved, class_eq, first_in, worst, green, drifted, verdict_of,
}
use xr_browser.Upstream.Class.Order.{rank, worst-rank, verdict_of-green_iff}
use xr_browser.Upstream.Classify.{
  merge_clean, created_apart, PatchResult, all_files, Query, ok, applied, Tools, classify_file,
  classify_patch,
}
use xr_browser.Upstream.Classify.Rows.{IsClassified, classify_patch-IsClassified}

-- Every file reads "new" behind the patch, nothing applies at the target, and merges are clean.
abbrev tools : Tools
tools = record {
  apply_patch = λ files patch. applied (λ p. some (codes "new"));
  apply_check = λ files patch. false;
  merge_file = λ ours base theirs. 0;
}

abbrev query : Query
query = record {
  patch_id = codes "p1";
  owner = codes "ui";
  category = codes "branding";
  patch_text = codes "diff";
  pin_files = (codes "b", codes "old") ∷ [];
  target_files = (codes "b", some (codes "theirs")) ∷ [];
  additions = codes "a" ∷ [];
  moved_targets = [];
}

abbrev classified : PatchResult
classified = record {
  id = codes "p1";
  owner = codes "ui";
  category = codes "branding";
  cls = drift;
  files =
      record { path = codes "a"; cls = clean; detail = created_apart; moved_to = none }
      ∷ record { path = codes "b"; cls = drift; detail = merge_clean; moved_to = none }
      ∷ [];
  detail = [];
}

query_run : classify_patch tools query ≡ ok classified
unfolding classify_patch classify_file all_files lookup worst first_in class_eq escapes text_eq
    text_le starts_with split split_from
query_run = refl

classify_patch-IsClassified_example : IsClassified query classified
classify_patch-IsClassified_example = classify_patch-IsClassified tools query classified query_run

verdict_run : verdict_of (drift ∷ clean ∷ []) ≡ drifted
unfolding verdict_of
verdict_run = refl

worst-rank_example :
    All (λ c. rank (worst (clean ∷ moved ∷ [])) ≤ rank c) (clean ∷ moved ∷ [])
    × ((worst (clean ∷ moved ∷ []) ≡ clean)
        ⊎ (any (class_eq (worst (clean ∷ moved ∷ []))) (clean ∷ moved ∷ []) ≡ true))
worst-rank_example = worst-rank (clean ∷ moved ∷ [])

verdict_of-green_iff_example :
    (verdict_of (map worst ((clean ∷ moved ∷ []) ∷ (clean ∷ []) ∷ [])) ≡ green)
    ↔ All (All (λ c. c ≡ clean)) ((clean ∷ moved ∷ []) ∷ (clean ∷ []) ∷ [])
verdict_of-green_iff_example = verdict_of-green_iff ((clean ∷ moved ∷ []) ∷ (clean ∷ []) ∷ [])
