-- ===== src/UpdateServer/Spec.antt =====
-- The four YAML files of release/server/spec as `handle` reads them, and the constants of
-- update_server_ref.py.
use xr_browser.Prelude.{
  ℕ, String, Text, Bool, Option, none, some, List, text_eq, codes, if◌then◌else◌,
}
use xr_browser.Json.{Json, str}

-- CHANNELS
pub data Channel : Type 0 where
  nightly beta stable dev : Channel

-- channel in CHANNELS
unfoldable pub channel_of : Option Json → Option Channel
channel_of (some (str c)) =
    if text_eq c (codes "nightly")
    then some nightly
    else if text_eq c (codes "beta")
    then some beta
    else if text_eq c (codes "stable")
    then some stable
    else if text_eq c (codes "dev")
    then some dev
    else none
channel_of _ = none

-- The head of a channel in the version graph.
pub record Head : Type 0 where
  pub version : Text
  pub hash_sha256 : Text
  pub size : ℕ
  pub url : Text

pub record Epoch : Type 0 where
  pub epoch_id : Text
  pub key_id : Text
  pub seq : ℕ

pub record Spec : Type 0 where
  -- channels.yaml
  pub served : Channel → Bool
  pub paused : Channel → Bool
  pub pause_semantics : Text
  -- cohorts.yaml
  pub ramp_percent : Channel → ℕ
  -- version-graph.yaml; `none` is a missing key
  pub head : Channel → Option Head
  -- epochs.yaml
  pub active : Epoch
  pub revoked : List Text

-- KEY_MATERIAL[key_id]
unfoldable pub key_material : Text → Option Text
key_material k =
    if text_eq k (codes "xr-root-1")
    then some (codes "ROOT-PUB")
    else if text_eq k (codes "xr-signing-2026-09")
    then some (codes "SIGNING-PUB")
    else none

abbrev pub request_cap : ℕ
request_cap = 65536

abbrev pub prefix : String
prefix = ")]}'\n"

abbrev pub app_id : String
app_id = "labs.rrrtx.xr"

abbrev pub max_appid : ℕ
max_appid = 128
