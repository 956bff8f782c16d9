-- ===== src/BundleCheck/Accepted.antt =====
-- The refusal tables of compile.py against the check of tools/list_bundle_check.py.
use xr_browser.Prelude.{
  ℕ, zero, suc, ◌<◌, Text, true, false, ◌≡◌, refl, sym, ap, Option, none, some, List, [], ◌∷◌, ◌++◌,
  All, All-append, Option-cases, inl, inr, is_empty, starts_with, text_eq, arith, ltb, split_lines,
}
use xr_browser.ListCompiler.Reason.{
  Reason, scriptlet, procedural_cosmetic, preprocessor, regex, cosmetic_hash, at_syntax,
  interior_pipe, empty_segment, comment, options_in_filter, redirect_on_exception, malformed_domain,
  malformed_redirect, malformed_empty_name, empty_filter, malformed_line, unsupported_option, text,
  is_named,
}
use xr_browser.ListCompiler.Outcome.{Outcome, rule, refused, Refusal}
use xr_browser.ListCompiler.Line.{parse_line}
use xr_browser.ListCompiler.Line.Reasons.{Quotes, parse_line-Quotes}
use xr_browser.ListCompiler.Bundle.{
  CompiledList, Tally, ListEntry, Bundle, Table, empty_table, key, index_of, bump, tally, tally_all,
  compile_list, compile_entries, compile_config,
}
use xr_browser.ListCompiler.Bundle.Ids.{outcomes_of, refusals_of, compile_list_lem}
use xr_browser.BundleCheck.{reason_ok, row_failures, table_failures}

reason_ok_named : (r : Reason) → is_named r ≡ true → reason_ok (text r) ≡ true
unfolding reason_ok text text_eq starts_with
reason_ok_named (unsupported_option []) h = cc
reason_ok_named (unsupported_option (c ∷ name)) h = ground arith
reason_ok_named scriptlet h = refl
reason_ok_named procedural_cosmetic h = refl
reason_ok_named preprocessor h = refl
reason_ok_named regex h = refl
reason_ok_named cosmetic_hash h = refl
reason_ok_named at_syntax h = refl
reason_ok_named interior_pipe h = refl
reason_ok_named empty_segment h = refl
reason_ok_named comment h = refl
reason_ok_named options_in_filter h = refl
reason_ok_named redirect_on_exception h = refl
reason_ok_named malformed_domain h = refl
reason_ok_named malformed_redirect h = refl
reason_ok_named malformed_empty_name h = refl
reason_ok_named empty_filter h = refl
reason_ok_named malformed_line h = refl

-- A refusal that a row of the table may hold.
abbrev IsTabled : Refusal → Type 0
IsTabled f = (is_named f.reason ≡ true) × (is_empty f.directive ≡ false)

abbrev RowOk : Tally → Type 0
RowOk t = IsTabled t.refusal × (0 < t.count)

bump-RowOk : (i : ℕ) (ts : List Tally) → All RowOk ts → All RowOk (bump i ts)
unfolding bump
bump-RowOk i [] h = tt
bump-RowOk zero (t ∷ ts) h = ((h.0.0, omega arith), h.1)
bump-RowOk (suc i) (t ∷ ts) h = (h.0, bump-RowOk i ts h.1)

tally-RowOk : (t : Table) (f : Refusal) → IsTabled f → All RowOk t.agg → All RowOk (tally t f).agg
unfolding tally
tally-RowOk t f ok h = elim (Option-cases (index_of (key f) t.index)) [
  | inl new ↦
      rw (new, tally)
        (All-append RowOk t.agg (record { refusal = f; count = 1 } ∷ []) h ((ok, omega arith), tt))
  | inr (i, old) ↦ rw (old, tally) (bump-RowOk i t.agg h)
]

tally_all-RowOk :
    (t : Table) (fs : List Refusal)
    → All IsTabled fs
    → All RowOk t.agg
    → All RowOk (tally_all t fs).agg
unfolding tally_all
tally_all-RowOk t [] ok h = h
tally_all-RowOk t (f ∷ fs) ok h = tally_all-RowOk (tally t f) fs ok.1 (tally-RowOk t f ok.0 h)

row_passes : (t : Tally) → RowOk t → row_failures t ≡ []
unfolding row_failures
row_passes t h =
    let counted : ltb t.count 1 ≡ false = ground (arith, h.1) in
    rw (reason_ok_named t.refusal.reason h.0.0, h.0.1, counted) refl

table_passes : (ts : List Tally) → All RowOk ts → table_failures ts ≡ []
unfolding table_failures
table_passes [] h = refl
table_passes (t ∷ ts) h = rw (row_passes t h.0) (table_passes ts h.1)

refusals_of-IsTabled : (os : List Outcome) → All Quotes os → All IsTabled (refusals_of os)
unfolding refusals_of
refusals_of-IsTabled [] h = tt
refusals_of-IsTabled (rule r ∷ os) h = refusals_of-IsTabled os h.1
refusals_of-IsTabled (refused f ∷ os) h = (h.0, refusals_of-IsTabled os h.1)

outcomes_of-Quotes : (lines : List Text) → All Quotes (outcomes_of lines)
unfolding outcomes_of
outcomes_of-Quotes [] = tt
outcomes_of-Quotes (line ∷ lines) =
    All-append Quotes (parse_line line) (outcomes_of lines) (parse_line-Quotes line)
      (outcomes_of-Quotes lines)

compile_list-IsTabled :
    (name attribution source : Text) → All IsTabled (compile_list name attribution source).1
compile_list-IsTabled name attribution source =
    rw (compile_list_lem name attribution source).1
      (refusals_of-IsTabled _ (outcomes_of-Quotes (split_lines source)))

compile_entries-IsTabled :
    (lists : List CompiledList) (fs : List Refusal) (es : List ListEntry)
    → All IsTabled fs
    → All IsTabled (compile_entries (lists, fs) es).1
unfolding compile_entries
compile_entries-IsTabled lists fs [] h = h
compile_entries-IsTabled lists fs (e ∷ es) h =
    compile_entries-IsTabled (lists ++ (compile_list e.name e.attribution e.source).0 ∷ [])
      (fs ++ (compile_list e.name e.attribution e.source).1) es
      (All-append IsTabled fs (compile_list e.name e.attribution e.source).1 h
        (compile_list-IsTabled e.name e.attribution e.source))

abbrev table_of : Option Bundle → List Tally
table_of none = []
table_of (some b) = b.refusals

-- The refusal table of every bundle that the compiler makes passes the check: each reason is in the
-- vocabulary, no directive is empty, and each count is positive.
pub compile_config_accepted :
    (name : Text) (version : ℕ) (entries : List ListEntry) (b : Bundle)
    → compile_config name version entries ≡ some b
    → table_failures b.refusals ≡ []
unfolding compile_config
compile_config_accepted name zero entries b h = cc
compile_config_accepted name (suc v) entries b h =
    let same = ap table_of (sym h) in
    rw same (
      table_passes _ (
        tally_all-RowOk empty_table (compile_entries ([], []) entries).1
          (compile_entries-IsTabled [] [] entries tt) tt))
