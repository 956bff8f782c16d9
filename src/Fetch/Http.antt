-- ===== src/Fetch/Http.antt =====
-- `http_get` of fetch.py: the attempts, their redirects and the retries.
use xr_browser.Prelude.{
  ℕ, zero, suc, Text, Bool, ◌||◌, none, some, List, [], ◌∷◌, ◌++◌, codes, ◌==◌, if◌then◌else◌,
}
use xr_browser.Fetch.{
  http_error, gave_up, incomplete_read, Reply, body, status, unreachable, cut_off, Platform, World,
  Outcome, raised, gives, url_problem,
}

-- What the `try` of the loop sees: the value to return, the exception to raise, or one to retry after.
pub data Round : Type 0 where
  settled : Outcome Text → Round
  retry : Text → Round

-- _RETRYABLE_HTTP
abbrev pub is_retryable : ℕ → Bool
is_retryable c = c == 408 || c == 429 || c == 500 || c == 502 || c == 503 || c == 504

-- _HTTP_MAX_ATTEMPTS
abbrev pub max_attempts : ℕ
max_attempts = 3

-- _HTTP_BACKOFF_S, in tenths of a second: the pauses before the attempt with the given index
unfoldable pub pauses : ℕ → List ℕ
pauses zero = []
pauses (suc zero) = 5 ∷ []
pauses (suc (suc i)) = 20 ∷ []

unfoldable pub ended : Text → Reply → Round
ended url (body bytes) = settled (gives bytes)
ended url (status code why) =
    if is_retryable code then retry why else settled (raised (http_error code url))
ended url (unreachable why) = retry why
ended url cut_off = settled (raised incomplete_read)

module _ (p : Platform) where
  -- _AllowlistRedirectHandler, on the redirects that an attempt meets.
  unfoldable pub follow : Text → List Text → Reply → Round
  follow url [] reply = ended url reply
  follow url (hop ∷ hops) reply = elim (url_problem p hop) [
    | some e ↦ settled (raised e)
    | none ↦ follow url hops reply
  ]

  -- The redirects that are asked for: those before the first that is refused.
  unfoldable pub taken : List Text → List Text
  taken [] = []
  taken (hop ∷ hops) = elim (url_problem p hop) [ some e ↦ [] | none ↦ hop ∷ taken hops ]

  -- The attempt with the number `k`.
  unfoldable pub round_at : ℕ → Text → Round
  round_at k url = follow url (p.network k url).hops (p.network k url).reply

  -- The world after a pause and an attempt.
  unfoldable pub after_attempt : ℕ → Text → World → World
  after_attempt i url w = record w {
    attempts = suc w.attempts;
    asked = w.asked ++ (url ∷ taken (p.network w.attempts url).hops);
    slept = w.slept ++ pauses i;
  }

  -- The loop, `n` attempts before its end; `i` is the index of the next and `last` the text of the
  -- exception that the one before ended with.
  unfoldable pub attempt_loop : ℕ → ℕ → Text → Text → World → Outcome Text × World
  attempt_loop zero i url last w = (raised (gave_up url last), w)
  attempt_loop (suc n) i url last w = elim (round_at w.attempts url) [
    | settled o ↦ (o, after_attempt i url w)
    | retry why ↦ attempt_loop n (suc i) url why (after_attempt i url w)
  ]

  unfoldable pub http_get : Text → World → Outcome Text × World
  http_get url w = elim (url_problem p url) [
    | some e ↦ (raised e, w)
    | none ↦ attempt_loop max_attempts 0 url (codes "None") w
  ]
