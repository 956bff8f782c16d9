-- ===== src/Fetch.antt =====
-- build/upstream/fetch.py: the world that it acts on, its errors, and the allowlist.
pub mod Http
pub mod Gitiles
pub mod Fixture
pub mod Retries
pub mod Calls
mod Tests
use xr_browser.Prelude.{
  ℕ, ◌+◌, String, Text, Bool, true, false, not, Option, none, some, List, [], ◌∷◌, ◌++◌, map, codes,
  decimal, has_text, text_eq, text_mem, Dict, if◌then◌else◌,
}
use xr_browser.Json.{Json}
use xr_browser.ListPackage.{Python}

-- The exceptions that leave the functions: FetchErrors, and below them those that nothing in the
-- file catches or turns into one.
pub data Problem : Type 0 where
  not_https : Text → Problem
  unparseable gave_up : Text → Text → Problem
  host_refused : Text → Option Text → Problem
  http_error : ℕ → Text → Problem
  not_decoded no_ref no_fixture run_not_found : Text → Problem
  incomplete_read index_error key_error json_error wrong_type : Problem

-- isinstance(exc, FetchError)
abbrev pub is_fetch_error : Problem → Bool
is_fetch_error incomplete_read = false
is_fetch_error index_error = false
is_fetch_error key_error = false
is_fetch_error json_error = false
is_fetch_error wrong_type = false
is_fetch_error _ = true

-- How an attempt to open a URL ends, when its redirects have been followed: with the body, with an
-- HTTPError of a code and a text, with a URLError, TimeoutError or OSError of a text, or in the middle
-- of the body.
pub data Reply : Type 0 where
  body : Text → Reply
  status : ℕ → Text → Reply
  unreachable : Text → Reply
  cut_off : Reply

-- The redirects of an attempt, in order, and its end.
pub record Attempt : Type 0 where
  pub hops : List Text
  pub reply : Reply

-- What urlsplit gives, the scheme and the host; or the text of the ValueError that it raises.
pub data Split : Type 0 where
  invalid : Text → Split
  parts : Text → Option Text → Split

-- The network and Python's libraries. `network` answers the attempt with the given number.
pub record Platform : Type 0 where
  pub network : ℕ → Text → Attempt
  pub urlsplit : Text → Split
  pub repr : Option Text → Text
  pub quote : Text → Text
  pub python : Python
  pub b64_utf8 : Text → Option Text
  pub json_loads : Text → Option Json

-- What the functions change: the number of attempts made, the URLs asked for and the pauses in tenths
-- of a second, the latest last, the source's counters and its cache of files.
pub record World : Type 0 where
  pub attempts : ℕ
  pub asked : List Text
  pub slept : List ℕ
  pub bytes_fetched : ℕ
  pub requests : ℕ
  pub cache : Dict Text

pub data Outcome {ℓ} (A : Type ℓ) : Type ℓ where
  raised : Problem → Outcome A
  gives : A → Outcome A

-- ALLOWED_HOSTS
abbrev pub allowed_hosts : List String
allowed_hosts =
    "chromium.googlesource.com" ∷ "commondatastorage.googleapis.com" ∷ "chromiumdash.appspot.com"
    ∷ "api.github.com" ∷ "static.crates.io" ∷ "pypi.org" ∷ []

module _ (p : Platform) where
  host_problem : Text → Option Text → Option Problem
  host_problem url none = some (host_refused url none)
  host_problem url (some host) =
      if text_mem host (map codes allowed_hosts) then none else some (host_refused url (some host))

  parts_problem : Text → Split → Option Problem
  parts_problem url (invalid why) = some (unparseable url why)
  parts_problem url (parts scheme hostname) =
      if not (text_eq scheme (codes "https"))
      then some (not_https url)
      else host_problem url hostname

  -- assert_url_allowed: what it raises, if anything
  unfoldable pub url_problem : Text → Option Problem
  unfolding host_problem parts_problem
  url_problem url = parts_problem url (p.urlsplit url)

  -- A URL that is returned only if it is allowed.
  unfoldable pub checked_url : Text → Outcome Text
  checked_url url = elim (url_problem url) [ some e ↦ raised e | none ↦ gives url ]
