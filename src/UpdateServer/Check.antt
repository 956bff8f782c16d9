-- ===== src/UpdateServer/Check.antt =====
-- The `updatecheck` of one application in `handle` of update_server_ref.py.
pub mod Offers
pub mod Total
use xr_browser.Prelude.{
  ℕ, Text, Bool, false, not, Option, none, some, leb, ◌++◌, text_mem, codes, if◌then◌else◌,
}
use xr_browser.Json.{Json, str}
use xr_browser.UpdateServer.Answer.{Answer, ok, err, raised, bad_version}
use xr_browser.UpdateServer.Platform.{Platform}
use xr_browser.UpdateServer.Version.{Parsed, Version, version_lt, parse_version}
use xr_browser.UpdateServer.Spec.{Channel, Head, Spec}

-- The variable `uc`: its status, and the manifest of an offered head.
pub data UpdateCheck : Type 0 where
  no_update : UpdateCheck
  paused : Text → UpdateCheck
  epoch_revoked : UpdateCheck
  offer : Head → UpdateCheck

module _ (p : Platform) (spec : Spec) where
  -- cur >= hv, against the parsed head
  against : Version → Head → Parsed Version → Answer UpdateCheck
  against cur head Parsed.raised = raised
  against cur head Parsed.refused = raised
  against cur head (Parsed.value hv) = ok (if version_lt cur hv then offer head else no_update)

  against_head : Version → Option Head → Answer UpdateCheck
  unfolding against
  against_head cur none = raised
  against_head cur (some head) = against cur head (parse_version p head.version)

  -- The current version; None is refused.
  with_current : Option Json → Channel → Parsed Version → Answer UpdateCheck
  with_current rawv channel Parsed.raised = raised
  with_current rawv channel Parsed.refused =
      err bad_version (codes "version " ++ p.repr rawv ++ codes " non-canonical")
  with_current rawv channel (Parsed.value cur) = against_head cur (spec.head channel)

  -- app.get("version", ""), parsed if it is a text
  unfoldable pub current_version : Option Json → Parsed Version
  current_version none = parse_version p (codes "")
  current_version (some (str v)) = parse_version p v
  current_version (some _) = Parsed.refused

  -- What repr shows of a version that is absent is that of "".
  shown_version : Option Json → Option Json
  shown_version none = some (str (codes ""))
  shown_version (some v) = some v

  -- epoch is not None and epoch in revoked
  unfoldable pub is_revoked : Option Text → Bool
  is_revoked none = false
  is_revoked (some epoch) = text_mem epoch spec.revoked

  unfoldable pub update_check : Channel → ℕ → Option Text → Option Json → Answer UpdateCheck
  unfolding is_revoked with_current current_version shown_version against_head
  update_check channel bucket epoch rawv =
      if not (spec.served channel)
      then ok no_update
      else if spec.paused channel
      then ok (paused spec.pause_semantics)
      else if is_revoked epoch
      then ok epoch_revoked
      else if leb (spec.ramp_percent channel) bucket
      then ok no_update
      else with_current (shown_version rawv) channel (current_version rawv)
