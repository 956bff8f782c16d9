-- ===== src/BundleCheck.antt =====
-- tools/list_bundle_check.py: the checks of the refusal table of a compiled list bundle. The children
-- have those of its manifest and of the apply state.
pub mod Accepted
pub mod Signed
pub mod Schema
pub mod Binding
pub mod State
mod Tests
use xr_browser.Prelude.{
  ℕ, String, Text, Bool, true, false, ◌||◌, ◌&&◌, not, List, [], ◌∷◌, ◌++◌, map, ltb, length,
  is_empty, starts_with, text_mem, codes, if◌then◌else◌,
}
use xr_browser.ListCompiler.Reason.{option_family, text}
use xr_browser.ListCompiler.Bundle.{Tally}

-- REFUSAL_TOKENS
abbrev pub tokens : List String
tokens =
    "unsupported-directive:scriptlet" ∷ "unsupported-directive:procedural-cosmetic"
    ∷ "unsupported-directive:preprocessor" ∷ "unsupported-directive:regex"
    ∷ "unsupported-directive:cosmetic-hash" ∷ "unsupported-directive:at-syntax"
    ∷ "unsupported-directive:interior-pipe" ∷ "unsupported-directive:comment"
    ∷ "unsupported-directive:options-in-filter" ∷ "unsupported-directive:empty-segment"
    ∷ "malformed-line" ∷ "unsupported-option-combination:redirect-on-exception"
    ∷ "malformed-option:domain" ∷ "malformed-option:redirect" ∷ "malformed-option:empty-name"
    ∷ "empty-filter" ∷ []

-- reason_ok, for a reason that is a text
unfoldable pub reason_ok : Text → Bool
reason_ok reason =
    if is_empty reason
    then false
    else if text_mem reason (map codes tokens)
    then true
    else starts_with (codes option_family) reason
      && ltb (length (codes option_family)) (length reason)

pub data RowFailure : Type 0 where
  outside_vocabulary : Text → RowFailure
  empty_directive bad_count : RowFailure

-- The checks of one row of the refusal table.
unfoldable pub row_failures : Tally → List RowFailure
row_failures t =
    (if reason_ok (text t.refusal.reason)
      then []
      else outside_vocabulary (text t.refusal.reason) ∷ [])
    ++ ((if is_empty t.refusal.directive then empty_directive ∷ [] else [])
        ++ (if ltb t.count 1 then bad_count ∷ [] else []))

-- The first loop of check_refusals.
unfoldable pub table_failures : List Tally → List RowFailure
table_failures [] = []
table_failures (t ∷ ts) = row_failures t ++ table_failures ts
