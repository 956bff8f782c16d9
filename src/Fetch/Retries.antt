-- ===== src/Fetch/Retries.antt =====
-- The retries of `http_get` of fetch.py: which attempt decides, and how many are made.
use xr_browser.Prelude.{
  ℕ, zero, suc, ◌+◌, ◌<◌, ◌≡◌, refl, ◌∙◌, Text, none, codes, arith, inl, inr, ◌⊎◌,
}
use xr_browser.Fetch.{gave_up, Platform, World, Outcome, raised, url_problem}
use xr_browser.Fetch.Http.{Round, settled, retry, round_at, after_attempt, attempt_loop, http_get}

pub Round-cases :
    (r : Round) → ((o : Outcome Text) × (r ≡ settled o)) ⊎ ((why : Text) × (r ≡ retry why))
Round-cases (settled o) = inl (o, refl)
Round-cases (retry why) = inr (why, refl)

-- An attempt that ends in an error that is retried.
abbrev pub IsRetried : Platform → ℕ → Text → Type 0
IsRetried p k url = (why : Text) × (round_at p k url ≡ retry why)

module _ (p : Platform) where
  pub attempt_loop_retries :
      (n i : ℕ) (url last why : Text) (w : World)
      → round_at p w.attempts url ≡ retry why
      → attempt_loop p (suc n) i url last w
        ≡ attempt_loop p n (suc i) url why (after_attempt p i url w)
  unfolding attempt_loop
  attempt_loop_retries n i url last why w e = rw (e, attempt_loop) refl

  pub attempt_loop_settles :
      (n i : ℕ) (url last : Text) (w : World) (o : Outcome Text)
      → round_at p w.attempts url ≡ settled o
      → attempt_loop p (suc n) i url last w ≡ (o, after_attempt p i url w)
  unfolding attempt_loop
  attempt_loop_settles n i url last w o e = rw (e, attempt_loop) refl

  settles :
      (j n i : ℕ) (url last : Text) (w : World) (o : Outcome Text)
      → j < n
      → ((k : ℕ) → k < j → IsRetried p (w.attempts + k) url)
      → round_at p (w.attempts + j) url ≡ settled o
      → ((attempt_loop p n i url last w).0 ≡ o)
        × ((attempt_loop p n i url last w).1.attempts ≡ w.attempts + suc j)
  unfolding after_attempt
  settles j zero i url last w o l before here = absurd (omega arith)
  settles zero (suc n) i url last w o l before here =
      let now : w.attempts + 0 ≡ w.attempts = omega arith in
      let e = attempt_loop_settles n i url last w o (rw now at here) in rw e (refl, omega arith)
  settles (suc j) (suc n) i url last w o l before here =
      let now : w.attempts + 0 ≡ w.attempts = omega arith in
      let (why, first) = before 0 (omega arith) in
      let next = after_attempt p i url w in
      let shift : suc w.attempts + j ≡ w.attempts + suc j = omega arith in
      let (result, count) =
        settles j n (suc i) url why next o (omega arith)
          (λ k m.
            let e : w.attempts + suc k ≡ suc w.attempts + k = omega arith in
            rw e at (before (suc k) (omega arith)))
          (rw (← shift) at here) in
      rw (attempt_loop_retries n i url last why w (rw now at first)) (result, omega (arith, count))

-- For an allowed URL, the first of three attempts that does not end in an error to be retried decides:
-- its value or its exception is that of the call, and no attempt follows it.
pub http_get_settles :
    (p : Platform) (url : Text) (w : World) (j : ℕ) (o : Outcome Text)
    → url_problem p url ≡ none
    → j < 3
    → ((k : ℕ) → k < j → IsRetried p (w.attempts + k) url)
    → round_at p (w.attempts + j) url ≡ settled o
    → ((http_get p url w).0 ≡ o) × ((http_get p url w).1.attempts ≡ w.attempts + suc j)
unfolding http_get
http_get_settles p url w j o allowed l before here =
    rw (allowed, http_get) (settles p j 3 0 url (codes "None") w o l before here)

-- For an allowed URL, three attempts that all end in errors to be retried make the call raise a
-- FetchError, after these three attempts.
pub http_get_gives_up :
    (p : Platform) (url : Text) (w : World)
    → url_problem p url ≡ none
    → ((k : ℕ) → k < 3 → IsRetried p (w.attempts + k) url)
    → ((last : Text) × ((http_get p url w).0 ≡ raised (gave_up url last)))
      × ((http_get p url w).1.attempts ≡ w.attempts + 3)
unfolding http_get attempt_loop after_attempt
http_get_gives_up p url w allowed all-IsRetried =
    let at0 : w.attempts + 0 ≡ w.attempts = omega arith in
    let at1 : w.attempts + 1 ≡ suc w.attempts = omega arith in
    let at2 : w.attempts + 2 ≡ suc (suc w.attempts) = omega arith in
    let (why0, r0) = all-IsRetried 0 (omega arith) in
    let (why1, r1) = all-IsRetried 1 (omega arith) in
    let (why2, r2) = all-IsRetried 2 (omega arith) in
    let w1 = after_attempt p 0 url w in
    let w2 = after_attempt p 1 url w1 in
    let e =
      attempt_loop_retries p 2 0 url (codes "None") why0 w (rw at0 at r0)
      ∙ attempt_loop_retries p 1 1 url why0 why1 w1 (rw at1 at r1)
      ∙ attempt_loop_retries p 0 2 url why1 why2 w2 (rw at2 at r2) in
    rw (allowed, http_get, e) ((why2, refl), omega arith)
