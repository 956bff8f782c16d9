-- ===== src/UpdateServer/Handle.antt =====
-- `handle` of update_server_ref.py: one request frame to an HTTP status and the response text.
pub mod Entries
pub mod Total
use xr_browser.Prelude.{
  Whole, plus, minus, whole_text, ℕ, Text, String, Bool, not, ◌&&◌, Option, none, some, List, [],
  ◌∷◌, ◌++◌, length, is_empty, all, drop, leb, ltb, starts_with, text_eq, text_mem, decimal, codes,
  map, if◌then◌else◌,
}
use xr_browser.Json.{Json, null, int, str, arr, obj, Fields, items, keys, get}
use xr_browser.UpdateServer.Answer.{
  Code, too_large, truncated, bad_length, malformed_request, unknown_field, wrong_protocol,
  bad_appid, bad_channel, bad_bucket, Answer, ok, err, raised, require, ◌>>=◌, ◌>>◌,
}
use xr_browser.UpdateServer.Platform.{Platform}
use xr_browser.UpdateServer.Spec.{Channel, channel_of, Spec, request_cap, prefix, app_id, max_appid}
use xr_browser.UpdateServer.Check.{UpdateCheck, update_check}

abbrev texts : List String → List Text
texts = map codes

-- set(d) - {…} is empty
closed : List String → Fields → Bool
closed known fs = all (λ k. text_mem k (texts known)) (keys fs)

-- set(d) == {…}
exactly : List String → Fields → Bool
exactly known fs = closed known fs && all (λ k. text_mem k (keys fs)) (texts known)

-- An entry of `out_apps`.
pub data Entry : Type 0 where
  unknown_application : Text → Entry
  checked : Text → UpdateCheck → Entry

abbrev pub entry_appid : Entry → Text
entry_appid (unknown_application appid) = appid
entry_appid (checked appid uc) = appid

module _ (p : Platform) (spec : Spec) where
  as_object : Text → Code → Json → Answer Fields
  as_object detail code (obj fs) = ok fs
  as_object detail code _ = err code detail

  appid_of : Option Json → Answer Text
  appid_of (some (str t)) =
      if ltb 0 (length t) && leb (length t) max_appid
      then ok t
      else err bad_appid (codes "appid " ++ p.repr (some (str t)))
  appid_of v = err bad_appid (codes "appid " ++ p.repr v)

  known_channel : Option Json → Answer Channel
  known_channel v = elim (channel_of v) [
    | some c ↦ ok c
    | none ↦ err bad_channel (codes "channel " ++ p.repr v)
  ]

  bucket_of : Option Json → Answer ℕ
  bucket_of (some (int n)) =
      if leb n 99 then ok n else err bad_bucket (codes "bucket " ++ p.repr (some (int n)))
  bucket_of v = err bad_bucket (codes "bucket " ++ p.repr v)

  epoch_of : Option Json → Answer (Option Text)
  epoch_of none = ok none
  epoch_of (some null) = ok none
  epoch_of (some (str e)) = ok (some e)
  epoch_of _ = err unknown_field (codes "epoch must be a string")

  -- The end of the loop's body.
  finish_entry : Text → Channel → ℕ → Option Text → Option Json → Answer Entry
  finish_entry appid channel bucket epoch rawv =
      if not (text_eq appid (codes app_id))
      then ok (unknown_application appid)
      else do uc ← update_check p spec channel bucket epoch rawv; ok (checked appid uc)

  -- The body of the loop over the applications.
  unfoldable pub app_entry : Fields → Json → Answer Entry
  unfolding as_object closed appid_of known_channel bucket_of epoch_of finish_entry
  app_entry os app = do
    fs ← as_object (codes "bad app entry") unknown_field app
    require (closed ("appid" ∷ "version" ∷ "channel" ∷ "bucket" ∷ "epoch" ∷ []) fs) unknown_field
        (codes "bad app entry")
    appid ← appid_of (get (codes "appid") fs)
    channel ← known_channel (get (codes "channel") fs)
    bucket ← bucket_of (get (codes "bucket") fs)
    epoch ← epoch_of (get (codes "epoch") fs)
    require (closed ("platform" ∷ "version" ∷ "arch" ∷ []) os) unknown_field (codes "bad os entry")
    finish_entry appid channel bucket epoch (get (codes "version") fs)

  unfoldable pub app_entries : Fields → List Json → Answer (List Entry)
  app_entries os [] = ok []
  app_entries os (app ∷ apps) = do e ← app_entry os app; es ← app_entries os apps; ok (e ∷ es)

  -- A field that the test of the keys has found.
  required : Text → Fields → Answer Json
  required k fs = elim (get k fs) [ none ↦ raised | some v ↦ ok v ]

  as_protocol : Json → Answer (Unit {0})
  as_protocol (str t) =
      if text_eq t (codes "3.1")
      then ok tt
      else err wrong_protocol (codes "protocol " ++ p.repr (some (str t)))
  as_protocol v = err wrong_protocol (codes "protocol " ++ p.repr (some v))

  as_apps : Json → Answer (List Json)
  as_apps (arr vs) =
      if is_empty (items vs)
      then err malformed_request (codes "app must be a non-empty array")
      else ok (items vs)
  as_apps _ = err malformed_request (codes "app must be a non-empty array")

  -- From the parsed request to the entries of the response.
  unfoldable pub handle_request : Json → Answer (List Entry)
  unfolding as_object exactly closed required as_protocol as_apps
  handle_request req = do
    fs ← as_object (codes "request not an object") malformed_request req
    require (exactly ("protocol" ∷ "os" ∷ "app" ∷ []) fs) unknown_field
        (codes "request keys must be exactly protocol/os/app")
    protocol ← required (codes "protocol") fs
    as_protocol protocol
    os_value ← required (codes "os") fs
    os ← as_object (codes "os must be an object") malformed_request os_value
    app_value ← required (codes "app") fs
    apps ← as_apps app_value
    app_entries os apps

  -- Those of an integer content_length, which can be negative.
  compare_length : ℕ → Whole → Answer (Unit {0})
  compare_length body (plus n) =
      if ltb body n
      then err truncated (codes "content-length " ++ decimal n ++ codes " > body " ++ decimal body)
      else if ltb n body
      then err bad_length (codes "content-length " ++ decimal n ++ codes " < body " ++ decimal body)
      else ok tt
  compare_length body (minus n) =
      err bad_length
        (codes "content-length " ++ whole_text (minus n) ++ codes " < body " ++ decimal body)

  -- The tests of the frame's length.
  unfoldable pub check_length : List ℕ → Option Whole → Answer (Unit {0})
  unfolding compare_length
  check_length frame content_length =
      if ltb request_cap (length frame)
      then err too_large (codes "request above " ++ decimal request_cap ++ codes " cap")
      else elim content_length [ none ↦ ok tt | some n ↦ compare_length (length frame) n ]

  -- The text without the anti-hijacking prefix.
  unfoldable pub body_of : Text → Text
  body_of body = if starts_with (codes prefix) body then drop (length (codes prefix)) body else body

  parsed : Option Json → Answer Json
  parsed none = err malformed_request (codes "bad json")
  parsed (some req) = ok req

  unfoldable pub handle_frame : List ℕ → Option Whole → Answer (List Entry)
  unfolding parsed
  handle_frame frame content_length = do
    check_length frame content_length
    req ← parsed (p.loads (body_of (p.decode frame)))
    handle_request req
