-- ===== src/BundleCheck/Tests.antt =====
-- The check of the refusal table on a compiled bundle.
use xr_browser.Prelude.{
  ℕ, ◌↔◌, Text, true, false, none, any, has_char, is_empty, replicate, text_eq_refl, split, decimal,
  ◌≡◌, refl, some, List, [], ◌∷◌, codes, split_lines, strip, find, text_eq, starts_with,
}
use xr_browser.ListCompiler.Reason.{scriptlet, unsupported_option, text}
use xr_browser.ListCompiler.Outcome.{refusal}
use xr_browser.ListCompiler.Cosmetic.{parse_cosmetic}
use xr_browser.ListCompiler.Line.{parse_line, marker_loop}
use xr_browser.ListCompiler.Bundle.{
  ListEntry, Bundle, add_outcome, add_outcomes, add_lines, compile_list, index_of, tally, tally_all,
  compile_entries, compile_config,
}
use xr_browser.Json.{
  Json, bool, int, str, arr, obj, nil, cons, Fields, end, field, get, canonical, commas,
}
use xr_browser.ListPackage.{Python}
use xr_browser.ListPackage.Manifest.{Args, pins_of}
use xr_browser.BundleCheck.Signed.{IsPython, IsAccepted, cmd_manifest-IsAccepted}
use xr_browser.BundleCheck.State.{
  not_monotonic, present_failure, slot_failure, slot_at, pin_failure, pins_at, lkg_failures,
  check_state,
}
use xr_browser.BundleCheck.State.Laws.{Passes, check_state-eq-nil_iff}
use xr_browser.BundleCheck.{reason_ok, outside_vocabulary, row_failures, table_failures}
use xr_browser.BundleCheck.Accepted.{compile_config_accepted}

abbrev entries : List ListEntry
entries = record { name = codes "l"; attribution = codes "a"; source = codes "b.com##+js(x)" } ∷ []

abbrev bundle : Bundle
bundle = record {
  name = codes "n";
  bundle_version = 1;
  lists = record { name = codes "l"; attribution = codes "a"; rules = [] } ∷ [];
  refusals =
      record {
        refusal = record { directive = codes "b.com##+js(x)"; reason = scriptlet };
        count = 1;
      }
      ∷ [];
}

entries_run : compile_config (codes "n") 1 entries ≡ some bundle
unfolding compile_config compile_entries tally_all compile_list add_lines split_lines add_outcomes
    parse_line strip starts_with marker_loop find parse_cosmetic add_outcome refusal tally index_of
entries_run = refl

compile_config_accepted_example : table_failures bundle.refusals ≡ []
compile_config_accepted_example = compile_config_accepted (codes "n") 1 entries bundle entries_run

nameless_option :
    table_failures (
      record {
        refusal = record { directive = codes "x"; reason = unsupported_option [] };
        count = 1;
      }
      ∷ [])
    ≡ outside_vocabulary (codes "unsupported-option:") ∷ []
unfolding table_failures row_failures reason_ok text text_eq starts_with
nameless_option = refl

-- A Python whose values are equal where they are printed alike, and whose digests are all the same.
abbrev digest : Text
digest = replicate 64 b'a'

abbrev python : Python
python = record {
  same = λ v w. text_eq (canonical v) (canonical w);
  is_zero = λ t. false;
  sha256 = λ t. digest;
}

python-IsPython : IsPython python
python-IsPython = record {
  same_text = λ s. text_eq_refl (canonical (str s));
  same_int = λ n. text_eq_refl (canonical (int n));
  digest_length = λ t. refl;
  digest_hex = λ t. refl;
}

abbrev args : Args
args = record { bundle_id = codes "x"; epoch = 5; key_pin = codes "gpg:1,,gpg:2"; lkg = none }

pins_run : pins_of args.key_pin ≡ codes "gpg:1" ∷ codes "gpg:2" ∷ []
unfolding pins_of split
pins_run = refl

pins_filled : is_empty (pins_of args.key_pin) ≡ false
unfolding pins_of split
pins_filled = refl

pins_spaceless : any (has_char b' ') (pins_of args.key_pin) ≡ false
unfolding pins_of split
pins_spaceless = refl

cmd_manifest-IsAccepted_example : IsAccepted python args bundle
cmd_manifest-IsAccepted_example =
    cmd_manifest-IsAccepted python (codes "n") 1 entries bundle args python-IsPython
      ((refl, refl), tt) entries_run pins_filled pins_spaceless

-- A slot that is present, with a version.
abbrev slot : ℕ → Json
slot version = obj (
    field (codes "bundle_id") (str (codes "b")) (
      field (codes "digest") (str (codes "d"))
        (field (codes "present") (bool true) (field (codes "version") (int version) end))))

abbrev state_of : Json → Json → Fields
state_of act lkg = field (codes "active") act (
    field (codes "last_apply_mono") (int 100)
      (field (codes "lkg") lkg (field (codes "pins") (arr (cons act (cons lkg nil))) end)))

state_run : Unit {0}
unfolding check_state slot_at slot_failure present_failure pins_at pin_failure lkg_failures get
    text_eq canonical commas decimal
state_run = tt

older_lkg : check_state python (state_of (slot 2) (slot 1)) ≡ []
unfolding state_run
older_lkg = refl

newer_lkg : check_state python (state_of (slot 1) (slot 2)) ≡ not_monotonic ∷ []
unfolding state_run
newer_lkg = refl

-- A state without an active slot has no violation.
empty_state : check_state python end ≡ []
unfolding state_run
empty_state = refl

check_state-eq-nil_iff_example :
    (check_state python (state_of (slot 2) (slot 1)) ≡ [])
    ↔ Passes python (state_of (slot 2) (slot 1))
check_state-eq-nil_iff_example = check_state-eq-nil_iff python (state_of (slot 2) (slot 1))
