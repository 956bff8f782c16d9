-- ===== src/Fetch/Calls/Invariants.antt =====
-- What every sequence of calls on fetch.py keeps.
use xr_browser.Prelude.{
  String, Bool-cases, Some, text_mem, text_eq, text_eq_iff, map, codes, refl, arith, ◌≡◌, ◌≢◌, sym,
  ap, ◌∙◌, Text, true, none, some, List, [], ◌∷◌, All, All-append, Option-cases, inl, inr, lookup,
  lookup-store_other,
}
use xr_browser.Fetch.{
  Platform, World, gives, Split, parts, invalid, allowed_hosts, host_problem, parts_problem,
  url_problem,
}
use xr_browser.Fetch.Http.{taken, after_attempt}
use xr_browser.Fetch.Gitiles.{keep, cached}
use xr_browser.Fetch.Calls.{Call, Step, attempted, stored, counted, Reach, here, then, calls}
use xr_browser.Fetch.Calls.Walks.{calls-Reach, cached-some, cached-stored}

module _ (p : Platform) where
  -- A URL whose scheme is https and whose host is one of the list.
  pub data IsAllowed (url : Text) : Type 0 where
    allowed :
        {host : Text}
        → p.urlsplit url ≡ parts (codes "https") (some host)
        → Some (λ h. host ≡ codes h) allowed_hosts
        → IsAllowed url

  listed :
      (host : Text) (hosts : List String)
      → text_mem host (map codes hosts) ≡ true
      → Some (λ h. host ≡ codes h) hosts
  listed host [] e = cc
  listed host (h ∷ hosts) e = elim (Bool-cases (text_eq host (codes h))) [
    | inl same ↦ inl ((text_eq_iff host (codes h)).0 same)
    | inr other ↦ inr (listed host hosts (ground arith))
  ]

  url_problem-IsAllowed : (url : Text) → url_problem p url ≡ none → IsAllowed url
  unfolding url_problem host_problem parts_problem
  url_problem-IsAllowed url e = go (p.urlsplit url) refl e
    where
      go : (s : Split) → p.urlsplit url ≡ s → parts_problem p url s ≡ none → IsAllowed url
      go (invalid why) is h = cc
      go (parts scheme none) is h = absurd (ground arith)
      go (parts scheme (some host)) is h =
          let secure : scheme ≡ codes "https" =
            (text_eq_iff scheme (codes "https")).0 (ground arith) in
          let known : text_mem host (map codes allowed_hosts) ≡ true = ground arith in
          allowed (is ∙ ap (λ t. parts t (some host)) secure) (listed host allowed_hosts known)

  taken-IsAllowed : (hops : List Text) → All IsAllowed (taken p hops)
  unfolding taken
  taken-IsAllowed [] = tt
  taken-IsAllowed (hop ∷ hops) = elim (Option-cases (url_problem p hop)) [
    | inl passes ↦ rw (passes, taken) (url_problem-IsAllowed hop passes, taken-IsAllowed hops)
    | inr (e, refused) ↦ rw (refused, taken) tt
  ]

  Step-IsAllowed : {u v : World} → Step p u v → All IsAllowed u.asked → All IsAllowed v.asked
  unfolding after_attempt keep
  Step-IsAllowed (attempted i url w passes) h =
      All-append IsAllowed w.asked _ h
        (url_problem-IsAllowed url passes, taken-IsAllowed (p.network w.attempts url).hops)
  Step-IsAllowed (stored key data_bytes w missing) h = h
  Step-IsAllowed (counted key data_bytes w) h = h

  Reach-IsAllowed : {u v : World} → Reach p u v → All IsAllowed u.asked → All IsAllowed v.asked
  Reach-IsAllowed here h = h
  Reach-IsAllowed (then s r) h = Reach-IsAllowed r (Step-IsAllowed s h)

  Step-lookup :
      {u v : World} (key data_bytes : Text)
      → Step p u v
      → lookup key u.cache ≡ some data_bytes
      → lookup key v.cache ≡ some data_bytes
  unfolding after_attempt keep
  Step-lookup key data_bytes (attempted i url w passes) h = h
  Step-lookup key data_bytes (counted k d w) h = h
  Step-lookup key data_bytes (stored k d w missing) h =
      let apart : k ≢ key =
        λ e. absurd (some_none (sym h ∙ ap (λ x. lookup x w.cache) (sym e) ∙ missing)) in
      lookup-store_other key k d w.cache apart ∙ h
    where
      some_none : some data_bytes ≢ none
      some_none e = cc

  Reach-lookup :
      {u v : World} (key data_bytes : Text)
      → Reach p u v
      → lookup key u.cache ≡ some data_bytes
      → lookup key v.cache ≡ some data_bytes
  Reach-lookup key data_bytes here h = h
  Reach-lookup key data_bytes (then s r) h =
      Reach-lookup key data_bytes r (Step-lookup key data_bytes s h)

-- Whatever calls are made and however the network answers, every URL that is asked for, a redirect
-- included, has the scheme https and a host of the allowlist.
pub calls-IsAllowed :
    (p : Platform) (cs : List Call) (w : World)
    → All (IsAllowed p) w.asked
    → All (IsAllowed p) (calls p cs w).asked
calls-IsAllowed p cs w = Reach-IsAllowed p (calls-Reach p cs w)

-- When a call for an immutable URL has given bytes, then after any further calls another one gives
-- the same bytes and leaves the world as it is: nothing is asked of the network.
pub cached-again :
    (p : Platform) (url data_bytes : Text) (cs : List Call) (w : World)
    → (cached p url true w).0 ≡ gives data_bytes
    → cached p url true (calls p cs (cached p url true w).1)
      ≡ (gives data_bytes, calls p cs (cached p url true w).1)
cached-again p url data_bytes cs w e =
    let v = (cached p url true w).1 in
    cached-some p url data_bytes (calls p cs v) (
      Reach-lookup p (p.python.sha256 url) data_bytes (calls-Reach p cs v)
        (cached-stored p url data_bytes w e))
