-- ===== src/Fetch/Calls/Walks.antt =====
-- The calls on fetch.py, as steps of the relation.
use xr_browser.Prelude.{
  lookup-store, ℕ, zero, suc, ◌≡◌, refl, ap, ◌∙◌, Text, Bool, true, false, Option, none, some, List,
  [], ◌∷◌, ◌++◌, codes, lookup, Option-cases, inl, inr, ◌⊎◌,
}
use xr_browser.Fetch.{Problem, Platform, World, Outcome, raised, gives, url_problem}
use xr_browser.Fetch.Http.{round_at, after_attempt, attempt_loop, max_attempts, http_get}
use xr_browser.Fetch.Retries.{Round-cases, attempt_loop_retries, attempt_loop_settles}
use xr_browser.Fetch.Calls.{
  Call, get, ci_run, text_of, listing, log_from, commit_at, ref_at, releases_of, attempted, stored,
  counted, Reach, here, then, call, calls, Reach-on, Walking,
}
use xr_browser.Fetch.Gitiles.{
  run_raws, run_fields, lift, get_json, guarded_json, Net, continue_with, ◌>>=◌, keep, cached,
  missing_run, resolve_ci_run, actions_url, file_text, dir_listing, log, commit, ref_value,
  releases,
}

Outcome-cases {ℓ} :
    {A : Type ℓ} (o : Outcome A) → ((a : A) × (o ≡ gives a)) ⊎ ((e : Problem) × (o ≡ raised e))
Outcome-cases (gives a) = inl (a, refl)
Outcome-cases (raised e) = inr (e, refl)

continue_with-Reach {ℓ κ} :
    {A : Type ℓ} {B : Type κ} (p : Platform) (next : A → Net B) (w : World) (r : Outcome A × World)
    → Reach p w r.1
    → ((a : A) → Walking p (next a))
    → Reach p w (continue_with next r).1
continue_with-Reach p next w (raised e, v) h k = h
continue_with-Reach p next w (gives a, v) h k = Reach-on p h (k a v)

module _ (p : Platform) where
  attempt_loop-Walking :
      (n i : ℕ) (url last : Text)
      → url_problem p url ≡ none
      → Walking p (attempt_loop p n i url last)
  unfolding attempt_loop
  attempt_loop-Walking zero i url last allowed w = here
  attempt_loop-Walking (suc n) i url last allowed w =
      elim (Round-cases (round_at p w.attempts url)) [
        | inl (o, e) ↦
            rw (attempt_loop_settles p n i url last w o e) (then (attempted i url w allowed) here)
        | inr (why, e) ↦ rw (attempt_loop_retries p n i url last why w e) (
            then (attempted i url w allowed)
              (attempt_loop-Walking n (suc i) url why allowed (after_attempt p i url w)))
      ]

  http_get-Walking : (url : Text) → Walking p (http_get p url)
  unfolding http_get
  http_get-Walking url w = elim (Option-cases (url_problem p url)) [
    | inl allowed ↦
        rw (allowed, http_get) (attempt_loop-Walking max_attempts 0 url (codes "None") allowed w)
    | inr (e, refused) ↦ rw (refused, http_get) here
  ]

  attempt_loop_cache :
      (n i : ℕ) (url last : Text) (w : World) → (attempt_loop p n i url last w).1.cache ≡ w.cache
  unfolding attempt_loop after_attempt
  attempt_loop_cache zero i url last w = refl
  attempt_loop_cache (suc n) i url last w = elim (Round-cases (round_at p w.attempts url)) [
    | inl (o, e) ↦ rw (attempt_loop_settles p n i url last w o e) refl
    | inr (why, e) ↦
        rw (attempt_loop_retries p n i url last why w e)
          (attempt_loop_cache n (suc i) url why (after_attempt p i url w))
  ]

  http_get_cache : (url : Text) (w : World) → (http_get p url w).1.cache ≡ w.cache
  unfolding http_get
  http_get_cache url w = elim (Option-cases (url_problem p url)) [
    | inl allowed ↦ rw (allowed, http_get) (attempt_loop_cache max_attempts 0 url (codes "None") w)
    | inr (e, refused) ↦ rw (refused, http_get) refl
  ]

  cached-none :
      (url : Text) (w : World)
      → lookup (p.python.sha256 url) w.cache ≡ none
      → cached p url true w ≡ continue_with (keep true (p.python.sha256 url)) (http_get p url w)
  unfolding cached
  cached-none url w e = rw (e, cached) refl

  pub cached-some :
      (url data_bytes : Text) (w : World)
      → lookup (p.python.sha256 url) w.cache ≡ some data_bytes
      → cached p url true w ≡ (gives data_bytes, w)
  unfolding cached
  cached-some url data_bytes w e = rw (e, cached) refl

  -- What follows the network call of a URL with the given key.
  keep-Reach :
      (immutable : Bool) (key : Text) (w : World) (r : Outcome Text × World)
      → Reach p w r.1
      → (immutable ≡ true → lookup key r.1.cache ≡ none)
      → Reach p w (continue_with (keep immutable key) r).1
  keep-Reach immutable key w (raised e, v) h k = h
  keep-Reach true key w (gives a, v) h k = Reach-on p h (then (stored key a v (k refl)) here)
  keep-Reach false key w (gives a, v) h k = Reach-on p h (then (counted key a v) here)

  cached-Walking : (url : Text) (immutable : Bool) → Walking p (cached p url immutable)
  unfolding cached
  cached-Walking url false w =
      keep-Reach false (p.python.sha256 url) w (http_get p url w) (http_get-Walking url w) (λ e. cc)
  cached-Walking url true w = elim (Option-cases (lookup (p.python.sha256 url) w.cache)) [
    | inr (data_bytes, e) ↦ rw (cached-some url data_bytes w e) here
    | inl e ↦ rw (cached-none url w e) (
        keep-Reach true (p.python.sha256 url) w (http_get p url w) (http_get-Walking url w)
          (λ t. rw (http_get_cache url w) e))
  ]

  gives-injective {ℓ} : {A : Type ℓ} {a b : A} → gives a ≡ gives b → a ≡ b
  gives-injective e = cc

  keep_stored :
      (key data_bytes : Text) (r : Outcome Text × World)
      → (continue_with (keep true key) r).0 ≡ gives data_bytes
      → lookup key (continue_with (keep true key) r).1.cache ≡ some data_bytes
  unfolding keep
  keep_stored key data_bytes (raised e, v) h = cc
  keep_stored key data_bytes (gives a, v) h =
      lookup-store key a v.cache ∙ ap some (gives-injective h)

  bind-Walking {ℓ κ} :
      {A : Type ℓ} {B : Type κ} (act : Net A) (next : A → Net B)
      → Walking p act
      → ((a : A) → Walking p (next a))
      → Walking p (act >>= next)
  bind-Walking act next h k w = continue_with-Reach p next w (act w) (h w) k

  file_text-Walking : (rev path : Text) → Walking p (file_text p rev path)
  unfolding file_text
  file_text-Walking rev path =
      bind-Walking (cached p _ true) _ (cached-Walking _ true) (λ raw w. here)

  dir_listing-Walking : (rev path : Text) → Walking p (dir_listing p rev path)
  unfolding dir_listing
  dir_listing-Walking rev path =
      bind-Walking (cached p _ true) _ (cached-Walking _ true)
        (λ raw. bind-Walking (lift (guarded_json p raw)) _ (λ w. here) (λ v w. here))

  log-Walking : (ref : Text) (n : ℕ) (start : Option Text) → Walking p (log p ref n start)
  unfolding log
  log-Walking ref n start =
      bind-Walking (cached p _ false) _ (cached-Walking _ false)
        (λ raw. bind-Walking (lift (guarded_json p raw)) _ (λ w. here) (λ v w. here))

  commit-Walking : (rev : Text) → Walking p (commit p rev)
  unfolding commit
  commit-Walking rev = bind-Walking (cached p _ true) _ (cached-Walking _ true) (λ raw w. here)

  releases-Walking : (channel platform : Text) (n : ℕ) → Walking p (releases p channel platform n)
  unfolding releases
  releases-Walking channel platform n =
      bind-Walking (cached p _ false) _ (cached-Walking _ false) (λ raw w. here)

  ref_value-Walking : (ref : Text) → Walking p (ref_value p ref)
  unfolding ref_value
  ref_value-Walking ref = bind-Walking (cached p _ _) _ (cached-Walking _ _) (λ raw.
      bind-Walking (lift (guarded_json p raw)) _ (λ w. here)
        (λ v. bind-Walking (lift (get_json (codes "refs/" ++ ref) v)) _ (λ w. here) (λ e w. here)))

  missing_run-Reach :
      (w : World) (r : Outcome (Text × Text) × World)
      → Reach p w r.1
      → Reach p w (missing_run p r).1
  unfolding missing_run
  missing_run-Reach w (raised e, v) h = h
  missing_run-Reach w (gives raws, v) h = h

  run_raws-Walking : (org repo : Text) (run job : ℕ) → Walking p (run_raws p org repo run job)
  unfolding run_raws
  run_raws-Walking org repo run job =
      bind-Walking (http_get p (actions_url p org repo "runs" run)) _ (http_get-Walking _) (λ a.
        bind-Walking (http_get p (actions_url p org repo "jobs" job)) _ (http_get-Walking _)
          (λ b v. here))

  resolve_ci_run-Walking :
      (org repo : Text) (run job : ℕ) → Walking p (resolve_ci_run p org repo run job)
  unfolding resolve_ci_run
  resolve_ci_run-Walking org repo run job w =
      continue_with-Reach p (λ raws. lift (run_fields p raws)) w
        (missing_run p (run_raws p org repo run job w))
        (missing_run-Reach w (run_raws p org repo run job w) (run_raws-Walking org repo run job w))
        (λ raws v. here)

  call-Reach : (c : Call) (w : World) → Reach p w (call p c w)
  unfolding call
  call-Reach (get url) w = http_get-Walking url w
  call-Reach (ci_run org repo run job) w = resolve_ci_run-Walking org repo run job w
  call-Reach (text_of rev path) w = file_text-Walking rev path w
  call-Reach (listing rev path) w = dir_listing-Walking rev path w
  call-Reach (log_from ref n start) w = log-Walking ref n start w
  call-Reach (commit_at rev) w = commit-Walking rev w
  call-Reach (ref_at ref) w = ref_value-Walking ref w
  call-Reach (releases_of channel platform n) w = releases-Walking channel platform n w

  pub calls-Reach : (cs : List Call) (w : World) → Reach p w (calls p cs w)
  unfolding calls
  calls-Reach [] w = here
  calls-Reach (c ∷ cs) w = Reach-on p (call-Reach c w) (calls-Reach cs (call p c w))

  -- After a call for an immutable URL that gives bytes, the cache has them.
  pub cached-stored :
      (url data_bytes : Text) (w : World)
      → (cached p url true w).0 ≡ gives data_bytes
      → lookup (p.python.sha256 url) (cached p url true w).1.cache ≡ some data_bytes
  cached-stored url data_bytes w e = elim (Option-cases (lookup (p.python.sha256 url) w.cache)) [
    | inr (old, found) ↦
        let same : old ≡ data_bytes = gives-injective (rw (cached-some url old w found) at e) in
        rw (cached-some url old w found) (found ∙ ap some same)
    | inl missing ↦ rw (cached-none url w missing) (
        keep_stored (p.python.sha256 url) data_bytes (http_get p url w)
          (rw (cached-none url w missing) at e))
  ]
