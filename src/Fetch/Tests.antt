-- ===== src/Fetch/Tests.antt =====
-- A network that fails once, redirects once and then answers.
use xr_browser.Prelude.{
  ℕ, zero, suc, ◌+◌, ◌<◌, ◌≡◌, refl, Text, true, false, none, some, List, [], ◌∷◌, All, codes,
  lookup, store, text_eq, starts_with, partition, find, if◌then◌else◌, drop, arith,
}
use xr_browser.Json.{canonical}
use xr_browser.Fetch.{
  Problem, gave_up, body, status, unreachable, Attempt, Split, invalid, parts, Platform, World,
  raised, gives, url_problem, checked_url,
}
use xr_browser.Fetch.Http.{
  settled, pauses, ended, follow, taken, round_at, after_attempt, attempt_loop, http_get,
}
use xr_browser.Fetch.Gitiles.{keep, cached, file_text, github_api_url, lstrip_slash}
use xr_browser.Fetch.Fixture.{file_at, fixture_file_text}
use xr_browser.Fetch.Retries.{IsRetried, http_get_settles, http_get_gives_up}
use xr_browser.Fetch.Calls.{Call, get, text_of, call, calls}
use xr_browser.Fetch.Calls.Invariants.{IsAllowed, calls-IsAllowed, cached-again}

abbrev target : Text
target = codes "https://pypi.org/x"

abbrev elsewhere : Text
elsewhere = codes "https://static.crates.io/y"

-- A URL of this test has no port and no user.
abbrev split_https : Text → Split
split_https url =
    if starts_with (codes "https://") url
    then parts (codes "https") (some (partition b'/' (drop 8 url)).0)
    else invalid (codes "bad")

-- The attempt 0 is answered with 503, the attempts from 2 on with a cut connection.
abbrev answer : ℕ → Text → Attempt
answer zero url = record { hops = []; reply = status 503 (codes "busy") }
answer (suc zero) url = record { hops = elsewhere ∷ []; reply = body (codes "hi") }
answer (suc (suc k)) url = record { hops = []; reply = unreachable (codes "reset") }

abbrev platform : Platform
platform = record {
  network = answer;
  urlsplit = split_https;
  repr = λ o. [];
  quote = λ t. t;
  python = record {
    same = λ v w. text_eq (canonical v) (canonical w);
    is_zero = λ t. false;
    sha256 = λ t. t;
  };
  b64_utf8 = λ t. some t;
  json_loads = λ t. none;
}

abbrev start : World
start = record { attempts = 0; asked = []; slept = []; bytes_fetched = 0; requests = 0; cache = [] }

abbrev later : World
later = record { attempts = 2; asked = []; slept = []; bytes_fetched = 0; requests = 0; cache = [] }

fetch_run : Unit {0}
unfolding url_problem http_get attempt_loop round_at after_attempt ended follow taken pauses keep
    cached file_text starts_with partition find text_eq lookup store call calls checked_url
    github_api_url lstrip_slash canonical
fetch_run = tt

-- The second attempt follows a redirect; it comes half a second after the first.
second_attempt : http_get platform target start ≡ (
  gives (codes "hi"),
  record start { attempts = 2; asked = target ∷ target ∷ elsewhere ∷ []; slept = 5 ∷ [] },
)
unfolding fetch_run
second_attempt = refl

plain_http :
    (http_get platform (codes "http://pypi.org/x") start).0
    ≡ raised (Problem.unparseable (codes "http://pypi.org/x") (codes "bad"))
unfolding fetch_run
plain_http = refl

api_url : github_api_url platform (codes "//repos") ≡ gives (codes "https://api.github.com/repos")
unfolding fetch_run
api_url = refl

target_allowed : url_problem platform target ≡ none
unfolding fetch_run
target_allowed = refl

first-IsRetried : (k : ℕ) → k < 1 → IsRetried platform (0 + k) target
unfolding fetch_run
first-IsRetried zero h = (codes "busy", refl)
first-IsRetried (suc k) h = absurd (omega arith)

all-IsRetried : (k : ℕ) → k < 3 → IsRetried platform (2 + k) target
unfolding fetch_run
all-IsRetried zero h = (codes "reset", refl)
all-IsRetried (suc zero) h = (codes "reset", refl)
all-IsRetried (suc (suc zero)) h = (codes "reset", refl)
all-IsRetried (suc (suc (suc k))) h = absurd (omega arith)

second_settles : round_at platform 1 target ≡ settled (gives (codes "hi"))
unfolding fetch_run
second_settles = refl

http_get_settles_example :
    ((http_get platform target start).0 ≡ gives (codes "hi"))
    × ((http_get platform target start).1.attempts ≡ 0 + suc 1)
http_get_settles_example =
    http_get_settles platform target start 1 (gives (codes "hi")) target_allowed (omega arith)
      first-IsRetried second_settles

http_get_gives_up_example :
    ((last : Text) × ((http_get platform target later).0 ≡ raised (gave_up target last)))
    × ((http_get platform target later).1.attempts ≡ 2 + 3)
http_get_gives_up_example = http_get_gives_up platform target later target_allowed all-IsRetried

abbrev two_calls : List Call
two_calls = text_of (codes "r") (codes "p") ∷ get target ∷ []

calls-IsAllowed_example : All (IsAllowed platform) (calls platform two_calls start).asked
calls-IsAllowed_example = calls-IsAllowed platform two_calls start tt

target-cached : (cached platform target true start).0 ≡ gives (codes "hi")
unfolding fetch_run
target-cached = refl

cached-again_example :
    cached platform target true (calls platform two_calls (cached platform target true start).1)
    ≡ (gives (codes "hi"), calls platform two_calls (cached platform target true start).1)
cached-again_example = cached-again platform target (codes "hi") two_calls start target-cached

fixture_missing :
    fixture_file_text
      (record { files = []; dirs = []; logs = []; refs = []; commits = []; release_rows = [] })
      (codes "r")
      (codes "p")
    ≡ raised (Problem.no_fixture (codes "r/p"))
unfolding fixture_file_text file_at
fixture_missing = refl
