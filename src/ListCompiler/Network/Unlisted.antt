-- ===== src/ListCompiler/Network/Unlisted.antt =====
-- The refusals of `parse_network` against the closed vocabulary of compile.py.
use xr_browser.Prelude.{
  ℕ, Text, true, false, ◌≡◌, refl, [], ◌∷◌, ◌++◌, has_char, partition, starts_with, text_eq, codes,
  arith,
}
use xr_browser.ListCompiler.Reason.{comment, text, is_listed}
use xr_browser.ListCompiler.Grammar.{head_is, filter_grammar_refusal}
use xr_browser.ListCompiler.Outcome.{refusal}
use xr_browser.ListCompiler.Network.{options_of, network_parts, finish, no_options, parse_network}

partition_lacking : (c : ℕ) (s : Text) → has_char c s ≡ false → partition c s ≡ (s, [])
unfolding partition
partition_lacking c [] h = refl
partition_lacking c (d ∷ s) h = ground (arith, partition_lacking c s)

options_of_plain : (line : Text) → has_char b'$' line ≡ false → options_of line true [] ≡ no_options
unfolding options_of
options_of_plain line h = rw h

finish_comment :
    (line s : Text) → finish line true (b'!' ∷ s) no_options ≡ refusal line comment ∷ []
unfolding finish filter_grammar_refusal head_is
finish_comment line s = refl

-- Without options, an exception line whose filter starts with "!" is refused as a comment, and
-- "unsupported-directive:comment" is neither in REFUSAL_TOKENS nor in a family.
pub parse_network_unlisted :
    (s : Text)
    → has_char b'$' s ≡ false
    → (parse_network (codes "@@!" ++ s) ≡ refusal (codes "@@!" ++ s) comment ∷ [])
      × (is_listed (text comment) ≡ false)
unfolding parse_network network_parts is_listed text text_eq starts_with
parse_network_unlisted s h = (
  rw (partition_lacking b'$' (b'!' ∷ s) h, options_of_plain (codes "@@!" ++ s) h)
      (finish_comment (codes "@@!" ++ s) s),
  refl,
)
