-- ===== src/UpdateServer/Render/Total.antt =====
-- The replies of `handle`.
use xr_browser.Prelude.{Text, List, [], ◌∷◌, ◌++◌, codes, ◌≡◌, ◌⊎◌, some}
use xr_browser.Json.{canonical}
use xr_browser.UpdateServer.Answer.{Code, Answer, ok, err}
use xr_browser.UpdateServer.Platform.{Platform}
use xr_browser.UpdateServer.Spec.{Spec, prefix, key_material}
use xr_browser.UpdateServer.Check.Total.{IsConsistent}
use xr_browser.UpdateServer.Handle.{Entry}
use xr_browser.UpdateServer.Render.{Reply, reply, refusal_reply, envelope_json, response_json}

module _ (p : Platform) (spec : Spec) (good : IsConsistent p spec) where
  abbrev pub response_reply : List Entry → Text → Reply
  response_reply es material = reply 200 (
      codes prefix
      ++ (canonical (envelope_json p spec.active material (response_json es)) ++ b'\n' ∷ []))

  -- What a reply can be: a signed response to the entries, or a refusal.
  abbrev pub Replied : Answer (List Entry) → Reply → Type 0
  Replied m a =
      ((es : List Entry) × (k : Text) × (m ≡ ok es)
        × (key_material spec.active.key_id ≡ some k)
        × (a ≡ response_reply es k))
      ⊎ ((c : Code) × (d : Text) × (m ≡ err c d) × (a ≡ refusal_reply c d))
