-- ===== src/UpdateServer/Render.antt =====
-- The response of `handle` of update_server_ref.py: the entries as JSON, the envelope, the stub
-- signature and the bytes sent, here as text.
pub mod Total
use xr_browser.Prelude.{
  Whole, ℕ, String, Text, Option, none, some, List, [], ◌∷◌, ◌++◌, map, take, codes,
}
use xr_browser.Json.{Json, int, str, arr, obj, Fields, end, field, arr_of, canonical}
use xr_browser.UpdateServer.Answer.{
  Code, too_large, truncated, bad_length, malformed_request, unknown_field, wrong_protocol,
  bad_appid, bad_channel, bad_bucket, bad_version, Answer, ok, err, raised,
}
use xr_browser.UpdateServer.Platform.{Platform}
use xr_browser.UpdateServer.Spec.{Head, Epoch, Spec, key_material, prefix}
use xr_browser.UpdateServer.Check.{UpdateCheck, no_update, paused, epoch_revoked, offer}
use xr_browser.UpdateServer.Handle.{Entry, unknown_application, checked, handle_frame}

abbrev pub code_text : Code → String
code_text too_large = "kTooLarge"
code_text truncated = "kTruncated"
code_text bad_length = "kBadLength"
code_text malformed_request = "kMalformedRequest"
code_text unknown_field = "kUnknownField"
code_text wrong_protocol = "kWrongProtocol"
code_text bad_appid = "kBadAppid"
code_text bad_channel = "kBadChannel"
code_text bad_bucket = "kBadBucket"
code_text bad_version = "kBadVersion"

abbrev text_field : String → Text → Fields → Fields
text_field k v fs = field (codes k) (str v) fs

abbrev obj_field : String → Fields → Fields → Fields
obj_field k v fs = field (codes k) (obj v) fs

-- uc["manifest"] and uc["urls"]
offered : Head → Fields
offered head =
    let crx = obj (
      text_field "fp" head.version (
        text_field "hash_sha256" head.hash_sha256 (
          text_field "name" (codes "xr-" ++ head.version ++ codes ".crx")
            (field (codes "size") (int head.size) end)))) in
    obj_field "manifest"
      (obj_field "packages" (field (codes "package") (arr (arr_of (crx ∷ []))) end)
        (text_field "run" [] (text_field "version" head.version end)))
      (obj_field "urls"
        (field (codes "url") (arr (arr_of (obj (text_field "codebase" head.url end) ∷ []))) end)
        end)

unfoldable pub updatecheck_json : UpdateCheck → Json
unfolding offered
updatecheck_json no_update = obj (text_field "status" (codes "noupdate") end)
updatecheck_json (paused semantics) = obj (text_field "status" semantics end)
updatecheck_json epoch_revoked = obj (text_field "status" (codes "error-epochRevoked") end)
updatecheck_json (offer head) = obj (text_field "status" (codes "ok") (offered head))

unfoldable pub entry_json : Entry → Json
entry_json (unknown_application appid) =
    obj (text_field "appid" appid (text_field "status" (codes "error-unknownApplication") end))
entry_json (checked appid uc) = obj (
    text_field "appid" appid
      (text_field "status" (codes "ok") (field (codes "updatecheck") (updatecheck_json uc) end)))

unfoldable pub response_json : List Entry → Json
response_json entries = obj (
    field (codes "app") (arr (arr_of (map entry_json entries))) (
      obj_field "daystart" (field (codes "elapsed_days") (int 0) end)
        (text_field "protocol" (codes "3.1") (text_field "server" (codes "pub") end))))

-- (http_status, response text), or an exception that leaves `handle`.
pub data Reply : Type 0 where
  reply : ℕ → Text → Reply
  exception : Reply

-- err(status, code, detail)
unfoldable pub refusal_reply : Code → Text → Reply
refusal_reply code detail = reply 400 (
    canonical (obj (text_field "detail" detail (text_field "error" (codes (code_text code)) end)))
    ++ b'\n' ∷ [])

module _ (p : Platform) where
  -- stub_sig(material, message)
  unfoldable pub stub_sig : Text → Text → Text
  stub_sig material message =
      codes "sig:" ++ take 16 (p.sha256_hex (material ++ codes "|" ++ message))

  unfoldable pub envelope_json : Epoch → Text → Json → Json
  envelope_json active material response = obj (
      obj_field "epoch"
        (text_field "epoch_id" active.epoch_id
          (text_field "key_id" active.key_id (field (codes "seq") (int active.seq) end)))
        (field (codes "response") response (
          text_field "schema" (codes "xr-update-envelope") (
            field (codes "schema_version") (int 1) (
              obj_field "signature"
                (text_field "alg" (codes "minisign-ed25519") (
                  text_field "key_id" active.key_id
                    (text_field "sig" (stub_sig material (canonical response)) end)))
                end)))))

  signed : Epoch → List Entry → Option Text → Reply
  signed active entries none = exception
  signed active entries (some material) = reply 200 (
      codes prefix
      ++ (canonical (envelope_json active material (response_json entries)) ++ b'\n' ∷ []))

  rendered : Spec → Answer (List Entry) → Reply
  rendered spec (ok entries) = signed spec.active entries (key_material spec.active.key_id)
  rendered spec (err code detail) = refusal_reply code detail
  rendered spec raised = exception

  unfoldable pub handle : List ℕ → Spec → Option Whole → Reply
  unfolding signed rendered
  handle frame spec content_length = rendered spec (handle_frame p spec frame content_length)
