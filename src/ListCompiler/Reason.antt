-- ===== src/ListCompiler/Reason.antt =====
-- The refusal reasons of xr-lists/compile.py. The source writes each as a string literal: a
-- constructor stands for a literal, and `text` is what it reads.
use xr_browser.Prelude.{
  String, Text, Bool, true, not, is_empty, ◌++◌, codes, List, [], ◌∷◌, ◌||◌, map, any, text_mem,
  starts_with,
}

pub data Reason : Type 0 where
  scriptlet procedural_cosmetic preprocessor regex cosmetic_hash at_syntax : Reason
  interior_pipe empty_segment comment options_in_filter redirect_on_exception : Reason
  malformed_domain malformed_redirect malformed_empty_name empty_filter malformed_line : Reason
  unsupported_option : Text → Reason

-- The family prefix of REFUSAL_FAMILIES.
abbrev pub option_family : String
option_family = "unsupported-option:"

unfoldable pub text : Reason → Text
text scriptlet = codes "unsupported-directive:scriptlet"
text procedural_cosmetic = codes "unsupported-directive:procedural-cosmetic"
text preprocessor = codes "unsupported-directive:preprocessor"
text regex = codes "unsupported-directive:regex"
text cosmetic_hash = codes "unsupported-directive:cosmetic-hash"
text at_syntax = codes "unsupported-directive:at-syntax"
text interior_pipe = codes "unsupported-directive:interior-pipe"
text empty_segment = codes "unsupported-directive:empty-segment"
text comment = codes "unsupported-directive:comment"
text options_in_filter = codes "unsupported-directive:options-in-filter"
text redirect_on_exception = codes "unsupported-option-combination:redirect-on-exception"
text malformed_domain = codes "malformed-option:domain"
text malformed_redirect = codes "malformed-option:redirect"
text malformed_empty_name = codes "malformed-option:empty-name"
text empty_filter = codes "empty-filter"
text malformed_line = codes "malformed-line"
text (unsupported_option name) = codes option_family ++ name

-- REFUSAL_TOKENS
abbrev pub refusal_tokens : List String
refusal_tokens =
    "unsupported-directive:scriptlet" ∷ "unsupported-directive:procedural-cosmetic"
    ∷ "unsupported-directive:preprocessor" ∷ "unsupported-directive:regex"
    ∷ "unsupported-directive:cosmetic-hash" ∷ "unsupported-directive:at-syntax"
    ∷ "unsupported-directive:interior-pipe" ∷ "unsupported-directive:empty-segment"
    ∷ "unsupported-option-combination:redirect-on-exception" ∷ "malformed-option:domain"
    ∷ "malformed-option:redirect" ∷ "malformed-option:empty-name" ∷ "empty-filter"
    ∷ "malformed-line" ∷ []

-- REFUSAL_FAMILIES
abbrev pub refusal_families : List String
refusal_families = option_family ∷ []

-- A text of REFUSAL_TOKENS, or one that starts with a prefix of REFUSAL_FAMILIES.
unfoldable pub is_listed : Text → Bool
is_listed t =
    text_mem t (map codes refusal_tokens) || any (λ f. starts_with (codes f) t) refusal_families

-- A reason for an option has the option's name.
abbrev pub is_named : Reason → Bool
is_named (unsupported_option name) = not (is_empty name)
is_named _ = true
