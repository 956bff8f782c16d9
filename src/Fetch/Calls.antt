-- ===== src/Fetch/Calls.antt =====
-- The calls that the engines make on fetch.py, and the steps that they take in the world.
pub mod Walks
pub mod Invariants
use xr_browser.Prelude.{
  ℕ, zero, suc, ◌+◌, ◌≡◌, refl, sym, ap, ◌∙◌, Text, Bool, true, false, Option, none, some, List, [],
  ◌∷◌, ◌++◌, codes, lookup, Option-cases, inl, inr, ◌⊎◌,
}
use xr_browser.Json.{Json}
use xr_browser.Fetch.{Problem, Platform, World, Outcome, raised, gives, url_problem}
use xr_browser.Fetch.Http.{
  settled, retry, round_at, after_attempt, attempt_loop, max_attempts, http_get,
}
use xr_browser.Fetch.Retries.{Round-cases, attempt_loop_retries, attempt_loop_settles}
use xr_browser.Fetch.Gitiles.{
  Net, continue_with, ◌>>=◌, keep, cached, missing_run, resolve_ci_run, actions_url, file_text,
  dir_listing, log, commit, ref_value, releases,
}

pub data Call : Type 0 where
  get : Text → Call
  ci_run : Text → Text → ℕ → ℕ → Call
  text_of listing : Text → Text → Call
  log_from : Text → ℕ → Option Text → Call
  commit_at ref_at : Text → Call
  releases_of : Text → Text → ℕ → Call

-- What changes the world: an attempt on an allowed URL, a file that is cached where none was, and a
-- response that is only counted.
pub data Step (p : Platform) : World → World → Type 0 where
  attempted :
      (i : ℕ) (url : Text) (w : World)
      → url_problem p url ≡ none
      → Step p w (after_attempt p i url w)
  stored :
      (key data_bytes : Text) (w : World)
      → lookup key w.cache ≡ none
      → Step p w (keep true key data_bytes w).1
  counted : (key data_bytes : Text) (w : World) → Step p w (keep false key data_bytes w).1

pub data Reach (p : Platform) : World → World → Type 0 where
  here : {w : World} → Reach p w w
  then : {u v w : World} → Step p u v → Reach p v w → Reach p u w

module _ (p : Platform) where
  -- One call, and the world that it leaves, whether it raises or not.
  unfoldable pub call : Call → World → World
  call (get url) w = (http_get p url w).1
  call (ci_run org repo run job) w = (resolve_ci_run p org repo run job w).1
  call (text_of rev path) w = (file_text p rev path w).1
  call (listing rev path) w = (dir_listing p rev path w).1
  call (log_from ref n start) w = (log p ref n start w).1
  call (commit_at rev) w = (commit p rev w).1
  call (ref_at ref) w = (ref_value p ref w).1
  call (releases_of channel platform n) w = (releases p channel platform n w).1

  unfoldable pub calls : List Call → World → World
  calls [] w = w
  calls (c ∷ cs) w = calls cs (call c w)

  pub Reach-on : {u v w : World} → Reach p u v → Reach p v w → Reach p u w
  Reach-on here r = r
  Reach-on (then s q) r = then s (Reach-on q r)

-- An action whose steps are those of the relation.
abbrev pub Walking {ℓ} : {A : Type ℓ} → Platform → Net A → Type 0
Walking p act = (w : World) → Reach p w (act w).1
