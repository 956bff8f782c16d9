-- ===== src/ListPackage/Bundled.antt =====
-- The dictionary that `compile_config` of xr-lists/compile.py returns, as json.loads reads it back.
use xr_browser.Prelude.{String, Text, Option, none, some, List, [], ◌∷◌, codes, map}
use xr_browser.Json.{Json, int, str, arr, obj, Fields, end, field, arr_of}
use xr_browser.ListCompiler.Reason.{text}
use xr_browser.ListCompiler.Outcome.{Action, block, allow, redirect, Kind, network, cosmetic}
use xr_browser.ListCompiler.Bundle.{CompiledRule, CompiledList, Tally, Bundle}

abbrev pub action_text : Action → String
action_text block = "block"
action_text allow = "allow"
action_text redirect = "redirect"

abbrev pub kind_text : Kind → String
kind_text network = "network"
kind_text cosmetic = "cosmetic"
kind_text Kind.redirect = "redirect"

-- A key with a list of texts, where that is not empty.
abbrev pub texts_field : String → List Text → Fields → Fields
texts_field k [] rest = rest
texts_field k (t ∷ ts) rest = field (codes k) (arr (arr_of (map str (t ∷ ts)))) rest

abbrev pub resource_field : Option Text → Fields
resource_field none = end
resource_field (some r) = field (codes "resource") (str r) end

unfoldable pub rule_json : CompiledRule → Json
rule_json r = obj (
    field (codes "action") (str (codes (action_text r.source.action))) (
      field (codes "filter") (str r.source.filter) (
        field (codes "id") (str r.id) (
          field (codes "kind") (str (codes (kind_text r.source.kind))) (
            texts_field "domains" r.source.domains (
              texts_field "exclude_domains" r.source.exclude_domains
                (resource_field r.source.resource)))))))

unfoldable pub list_json : CompiledList → Json
list_json l = obj (
    field (codes "name") (str l.name) (
      field (codes "attribution") (str l.attribution)
        (field (codes "rules") (arr (arr_of (map rule_json l.rules))) end)))

unfoldable pub tally_json : Tally → Json
tally_json t = obj (
    field (codes "directive") (str t.refusal.directive) (
      field (codes "reason") (str (text t.refusal.reason))
        (field (codes "count") (int t.count) end)))

unfoldable pub bundle_json : Bundle → Json
bundle_json b = obj (
    field (codes "schema") (str (codes "xr-list-bundle")) (
      field (codes "schema_version") (int 1) (
        field (codes "name") (str b.name) (
          field (codes "bundle_version") (int b.bundle_version) (
            field (codes "lists") (arr (arr_of (map list_json b.lists)))
              (field (codes "refusals") (arr (arr_of (map tally_json b.refusals))) end))))))
