-- ===== src/SchemaCheck/Tests.antt =====
-- A schema with a definition that a property points to, a document that conforms and one that does not.
use xr_browser.Prelude.{
  ◌≡◌, ◌↔◌, refl, Text, true, false, some, [], ◌∷◌, codes, text_eq, split, split_from, find,
  has_text, lookup,
}
use xr_browser.Json.{
  Json, null, bool, int, str, arr, obj, Fields, end, field, arr_of, get, canonical,
}
use xr_browser.ListPackage.{Python, iterate, truthy}
use xr_browser.SchemaCheck.{
  expected, additional_property, missing_property, lstrip_hash, resolve, contains, has_type,
  type_problems, extra_errors, is_there, required_errors, property_errors, object_errors, deref,
  enum_errors, const_errors, value_errors, node_errors, rules_of, validate, field_checks,
  validate_document,
}
use xr_browser.SchemaCheck.Conforming.{Conforms}
use xr_browser.SchemaCheck.Validated.{validate_document-eq-nil_iff}

abbrev python : Python
python = record {
  same = λ v w. text_eq (canonical v) (canonical w);
  is_zero = λ t. false;
  sha256 = λ t. t;
}

abbrev key : Text → Json → Fields → Fields
key = field

abbrev typed : Text → Json
typed name = obj (field (codes "type") (str name) end)

abbrev verdicts : Json
verdicts = obj (
    field (codes "type") (str (codes "string"))
      (field (codes "enum") (arr (arr_of (str (codes "allow") ∷ str (codes "ask") ∷ []))) end))

abbrev schema : Json
schema = obj (
    field (codes "type") (str (codes "object")) (
      field (codes "additionalProperties") (bool false) (
        field (codes "required") (arr (arr_of (str (codes "id") ∷ str (codes "verdict") ∷ []))) (
          field (codes "properties")
            (obj (
              field (codes "id") (typed (codes "integer")) (
                field (codes "verdict")
                  (obj (field (codes "$ref") (str (codes "#/definitions/verdict")) end)) end)))
            (field (codes "definitions") (obj (field (codes "verdict") verdicts end)) end)))))

abbrev document : Json
document = obj (field (codes "id") (int 7) (field (codes "verdict") (str (codes "ask")) end))

abbrev bad_document : Json
bad_document = obj (field (codes "id") (bool true) (field (codes "note") null end))

schema_run : Unit {0}
unfolding lstrip_hash resolve contains has_type type_problems extra_errors is_there required_errors
    property_errors object_errors deref enum_errors const_errors value_errors node_errors rules_of
    validate field_checks validate_document get text_eq canonical iterate truthy split split_from
    find has_text lookup
schema_run = tt

document_passes : validate_document python document schema ≡ some []
unfolding schema_run
document_passes = refl

bad_document_fails :
    validate_document python bad_document schema
    ≡ some (
        (str (codes "note") ∷ [], additional_property)
        ∷ (str (codes "verdict") ∷ [], missing_property)
        ∷ (str (codes "id") ∷ [], expected (codes "integer"))
        ∷ [])
unfolding schema_run
bad_document_fails = refl

validate_document-eq-nil_iff_example :
    (validate_document python document schema ≡ some []) ↔ Conforms python schema document schema
validate_document-eq-nil_iff_example = validate_document-eq-nil_iff python schema document
