-- ===== src/UpdateServer/Check/Total.antt =====
-- The exceptions of the update check of an application.
use xr_browser.Prelude.{ℕ, Text, true, ◌≡◌, ◌≢◌, refl, Option, none, some, arith}
use xr_browser.Json.{Json, str}
use xr_browser.UpdateServer.Answer.{raised}
use xr_browser.UpdateServer.Platform.{Platform}
use xr_browser.UpdateServer.Version.{Parsed, Version, parse_version}
use xr_browser.UpdateServer.Version.Total.{IsReadable, parse_version-ne-raised, parse_version-empty}
use xr_browser.UpdateServer.Spec.{Channel, Head, Spec, key_material}
use xr_browser.UpdateServer.Check.{
  against, against_head, with_current, current_version, shown_version, update_check,
}

-- Every served channel has a head whose version parses, and the active key is known.
pub record IsConsistent (p : Platform) (spec : Spec) : Type 0 where
  pub heads :
      (c : Channel)
      → spec.served c ≡ true
      → (h : Head) × (v : Version) × (spec.head c ≡ some h)
        × (parse_version p h.version ≡ Parsed.value v)
  pub material : key_material spec.active.key_id ≢ none

-- A version of an application that int(…) does not raise on.
abbrev pub VersionReads : Platform → Option Json → Type 0
VersionReads p v = (t : Text) → v ≡ some (str t) → IsReadable p t

module _ (p : Platform) (spec : Spec) (good : IsConsistent p spec) where
  current_version-ne-raised :
      (v : Option Json) → VersionReads p v → current_version p spec v ≢ Parsed.raised
  unfolding current_version
  current_version-ne-raised none h = parse_version-empty p
  current_version-ne-raised (some (str t)) h = parse_version-ne-raised p t (h t refl)
  current_version-ne-raised (some _) h = λ e. cc

  with_current-ne-raised :
      (shown : Option Json) (c : Channel) (cur : Parsed Version)
      → spec.served c ≡ true
      → cur ≢ Parsed.raised
      → with_current p spec shown c cur ≢ raised
  unfolding with_current against_head against
  with_current-ne-raised shown c Parsed.raised served h = absurd (h refl)
  with_current-ne-raised shown c Parsed.refused served h = λ e. cc
  with_current-ne-raised shown c (Parsed.value cur) served h =
      let (head, v, listed, parses) = good.heads c served in
      rw (listed, against_head) (rw (parses, against) (λ e. cc))

  pub update_check-ne-raised :
      (c : Channel) (bucket : ℕ) (epoch : Option Text) (v : Option Json)
      → VersionReads p v
      → update_check p spec c bucket epoch v ≢ raised
  unfolding update_check
  update_check-ne-raised c bucket epoch v h = ground (
    arith,
    with_current-ne-raised (shown_version p spec v) c (current_version p spec v),
    current_version-ne-raised v h,
  )
