-- ===== src/UpdateServer/Tests.antt =====
-- A platform and a spec of one channel, runs of the update server on them, and its theorems there.
use xr_browser.Prelude.{
  plus, minus, whole_text, ℕ, String, Bool, true, false, ◌||◌, ◌-◌, ◌==◌, ◌≡◌, ◌↔◌, Option, none,
  some, List, [], ◌∷◌, ◌++◌, text_eq, starts_with, split, split_from, codes, decimal, refl,
  if◌then◌else◌, arith, is_ascii_digit,
}
use xr_browser.Json.{Json, int, str, arr, obj, end, field, arr_of, get}
use xr_browser.UpdateServer.Answer.{ok, err, bad_length}
use xr_browser.UpdateServer.Platform.{Platform, KnowsAscii, takes_digits}
use xr_browser.UpdateServer.Version.{Parsed, Version, parse_version, parse_part, int_of, version_lt}
use xr_browser.UpdateServer.Version.Canonical.{IsInRange, print_version, parse_version-eq-value_iff}
use xr_browser.UpdateServer.Version.Total.{parse_version-eq-raised}
use xr_browser.UpdateServer.Spec.{Channel, channel_of, nightly, Head, Spec}
use xr_browser.UpdateServer.Check.{no_update, offer, update_check, current_version, is_revoked}
use xr_browser.UpdateServer.Check.Offers.{Offers, widened, offer_monotone}
use xr_browser.UpdateServer.Handle.{
  Entry, unknown_application, checked, app_entries, handle_frame, body_of, check_length,
  handle_request, app_entry,
}
use xr_browser.UpdateServer.Handle.Entries.{AllAnswered, app_entries-AllAnswered}

-- The digits of ASCII, and the superscript two where `superscript` holds.
abbrev digit_test : Bool → ℕ → Bool
digit_test superscript c = is_ascii_digit c || (if superscript then c == 178 else false)

abbrev digit_of : ℕ → Option ℕ
digit_of c = if is_ascii_digit c then some (c - b'0') else none

abbrev app_fields : String → String → Json
app_fields appid version = obj (
    field (codes "appid") (str (codes appid)) (
      field (codes "version") (str (codes version))
        (field (codes "channel") (str (codes "nightly")) (field (codes "bucket") (int 7) end))))

abbrev two_apps : List Json
two_apps = app_fields "labs.rrrtx.xr" "0.9.21.0" ∷ app_fields "other" "1.0.0.0" ∷ []

abbrev request : Json
request = obj (
    field (codes "protocol") (str (codes "3.1")) (
      field (codes "os") (obj (field (codes "arch") (str (codes "x64")) end))
        (field (codes "app") (arr (arr_of two_apps)) end)))

-- The parser knows the text "R", which stands for the request.
abbrev platform : Bool → Platform
platform superscript = record {
  decode = λ bytes. bytes;
  loads = λ t. if text_eq t (codes "R") then some request else none;
  repr = λ v. codes "?";
  sha256_hex = λ t. t ++ codes "0123456789abcdef";
  is_digit = digit_test superscript;
  digit_value = digit_of;
  max_str_digits = some 4300;
}

abbrev ascii : Platform
ascii = platform false

abbrev latin : Platform
latin = platform true

ascii-KnowsAscii : KnowsAscii ascii
unfolding takes_digits
ascii-KnowsAscii = record {
  is_digit = λ c h. ground arith;
  digit_value = λ c h. ground arith;
  takes_five = λ n h. ground arith;
}

abbrev head : Head
head = record {
  version = codes "0.9.22.1";
  hash_sha256 = codes "11";
  size = 88080384;
  url = codes "https://u";
}

abbrev is_nightly : Channel → Bool
is_nightly nightly = true
is_nightly _ = false

abbrev head_of : Channel → Option Head
head_of nightly = some head
head_of _ = none

abbrev spec : Spec
spec = record {
  served = is_nightly;
  paused = λ c. false;
  pause_semantics = codes "error-pausedChannel";
  ramp_percent = λ c. 50;
  head = head_of;
  active = record { epoch_id = codes "2026-09"; key_id = codes "xr-signing-2026-09"; seq = 3 };
  revoked = codes "2026-08" ∷ [];
}

abbrev version_21 : Version
version_21 = record { major = 0; minor = 9; build = 21; patch = 0 }

abbrev two_entries : List Entry
two_entries =
    checked (codes "labs.rrrtx.xr") (offer head) ∷ unknown_application (codes "other") ∷ []

abbrev version_22 : Version
version_22 = record { major = 0; minor = 9; build = 22; patch = 1 }

-- Opens what a version and an update check run through.
check_run : Unit {0}
unfolding parse_version parse_part int_of takes_digits version_lt is_revoked current_version
    update_check text_eq starts_with split split_from decimal
check_run = tt

version_parses : parse_version ascii (codes "0.9.21.0") ≡ Parsed.value version_21
unfolding check_run
version_parses = refl

leading_zero_refused : parse_version ascii (codes "0.09.21.0") ≡ Parsed.refused
unfolding check_run
leading_zero_refused = refl

parse_version-eq-value_iff_example :
    (parse_version ascii (codes "0.9.21.0") ≡ Parsed.value version_21)
    ↔ ((codes "0.9.21.0" ≡ print_version version_21) × IsInRange version_21)
parse_version-eq-value_iff_example =
    parse_version-eq-value_iff ascii ascii-KnowsAscii (codes "0.9.21.0") version_21 refl

parse_version-eq-raised_example :
    parse_version latin
      ((178 ∷ []) ++ (b'.' ∷ (codes "0" ++ (b'.' ∷ (codes "0" ++ (b'.' ∷ codes "0"))))))
    ≡ Parsed.raised
parse_version-eq-raised_example =
    parse_version-eq-raised latin 178 (codes "0") (codes "0") (codes "0") refl refl refl refl refl
      refl

offered_head :
    update_check ascii spec nightly 7 none (some (str (codes "0.9.21.0"))) ≡ ok (offer head)
unfolding check_run
offered_head = refl

head_is_current :
    update_check ascii spec nightly 7 none (some (str (codes "0.9.22.1"))) ≡ ok no_update
unfolding check_run
head_is_current = refl

offer_monotone_example :
    update_check ascii (widened spec (λ c. 60)) nightly 3 none (some (str (codes "0.9.21.0")))
    ≡ ok (offer head)
offer_monotone_example =
    offer_monotone ascii spec (λ c. 60) nightly 7 3 none (some (str (codes "0.9.21.0"))) head
      (omega arith) (omega arith) offered_head

ascii_frame : handle_frame ascii spec (codes ")]}'\nR") (some (plus 6)) ≡ ok two_entries
unfolding check_run handle_frame check_length handle_request app_entries app_entry channel_of get
    body_of
ascii_frame = refl

negative_length :
    handle_frame ascii spec (codes "R") (some (minus 0))
    ≡ err bad_length (codes "content-length -1 < body 1")
unfolding check_run handle_frame check_length whole_text
negative_length = refl

abbrev at_field : String → Json → Option Json
at_field k (obj fs) = get (codes k) fs
at_field k _ = none

entries_run : app_entries ascii spec end two_apps ≡ ok two_entries
unfolding check_run app_entries app_entry channel_of get
entries_run = refl

app_entries-AllAnswered_example : AllAnswered ascii spec two_apps two_entries
app_entries-AllAnswered_example =
    app_entries-AllAnswered ascii spec end two_apps two_entries entries_run
