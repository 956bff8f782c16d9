-- ===== src/SchemaCheck/Validated.antt =====
-- `_validate` as a whole, by recursion on the value.
use mathlib.Core.Option.{some_inj}
use mathlib.Core.Option
use xr_browser.Prelude.{
  ◌≡◌, ◌↔◌, refl, ap, ◌∙◌, Text, true, none, some, [], ◌∷◌, codes, Bool-cases, Option-cases, inl,
  inr, text_eq, lookup, arith,
}
use xr_browser.Json.{Json, null, bool, int, neg, float, str, arr, obj, Fields, end, field, get}
use xr_browser.ListPackage.{Python, ◌>>=◌}
use xr_browser.SchemaCheck.{
  Place, join, placed, fields_of, has_type, type_problems, extra_errors, required_errors,
  property_error, property_errors, props_of, required_of, object_errors, value_errors, node_errors,
  rules_of, by_rules, validate, field_checks, validate_document,
}
use xr_browser.SchemaCheck.Checked.{
  TypePasses, ValuePasses, Passes, PassAll, object, plain, no_more, absent, present,
}
use xr_browser.SchemaCheck.Conforming.{Conforms}
use xr_browser.SchemaCheck.Described.{Passes-Conforms, Conforms-Passes}
use xr_browser.SchemaCheck.Steps.{
  join-eq-nil_iff, placed-eq-nil_iff, type_problems-eq-nil_iff, value_errors-eq-nil_iff,
  extra_errors-eq-nil_iff, required_errors-eq-nil_iff,
}

-- What the checkers of an object's values do.
abbrev Agrees : Python → Json → Fields → Type 0
Agrees p root fs =
    (k : Text) (v : Json)
    → get k fs ≡ some v
    → (schema : Json) (place : Place)
    → (validate p root v schema place ≡ some []) ↔ Passes p root v schema

module _ (p : Python) (root : Json) where
  lookup-field_checks :
      (fs : Fields) (k : Text)
      → lookup k (field_checks p root fs) ≡ Option.map (validate p root) (get k fs)
  unfolding field_checks lookup get
  lookup-field_checks end k = refl
  lookup-field_checks (field j v fs) k = ground (arith, lookup-field_checks fs k)

  property_errors-eq-nil_iff :
      (fs : Fields)
      → Agrees p root fs
      → (place : Place) (props : Fields)
      → (property_errors (field_checks p root fs) place props ≡ some []) ↔ PassAll p root fs props
  unfolding property_errors
  property_errors-eq-nil_iff fs agrees place end = (λ e. no_more, λ h. refl)
  property_errors-eq-nil_iff fs agrees place (field k sub props) =
      let rest = property_errors-eq-nil_iff fs agrees place props in
      let found = lookup-field_checks fs k in
      (
        λ e.
            let (e1, e2) =
              (join-eq-nil_iff (property_error k sub place (lookup k (field_checks p root fs))) _).0
                e in
            elim (Option-cases (get k fs)) [
              | inl missing ↦ absent missing (rest.0 e2)
              | inr (v, here) ↦
                  let held = found ∙ ap (Option.map (validate p root)) here in
                  present here ((agrees k v here sub (str k ∷ place)).0 (rw held at e1)) (rest.0 e2)
            ],
        λ h. elim h [
          | absent missing more ↦
              let held = found ∙ ap (Option.map (validate p root)) missing in
              rw (held, rest.1 more) refl
          | present {v = v} here c more ↦
              let held = found ∙ ap (Option.map (validate p root)) here in
              rw (held, (agrees k v here sub (str k ∷ place)).1 c, rest.1 more) refl
        ],
      )

  plain_iff :
      (node : Json) (rules : Fields) (place : Place)
      → (join (some (placed place (type_problems node rules))) (value_errors p node rules place)
          ≡ some [])
        ↔ (TypePasses node rules × ValuePasses p node rules)
  plain_iff node rules place =
      let both =
        join-eq-nil_iff (some (placed place (type_problems node rules)))
          (value_errors p node rules place) in
      let typed = type_problems-eq-nil_iff node rules in
      let empty = placed-eq-nil_iff place (type_problems node rules) in
      let allowed = value_errors-eq-nil_iff p node rules place in
      (
        λ e. (typed.0 (empty.0 (some_inj.0 (both.0 e).0)), allowed.0 (both.0 e).1),
        λ h. both.1 (ap some (empty.1 (typed.1 h.0)), allowed.1 h.1),
      )

  object_errors-Passes :
      (fs : Fields)
      → Agrees p root fs
      → (schema : Json) (rules : Fields) (place : Place) → rules_of p root schema ≡ some rules
      → has_type "object" rules ≡ true
      → object_errors fs (field_checks p root fs) rules place ≡ some []
      → ValuePasses p (obj fs) rules
      → Passes p root (obj fs) schema
  unfolding object_errors
  object_errors-Passes fs agrees schema rules place ruled typed e allowed =
      elim (Option-cases (props_of (get (codes "properties") rules))) [
        | inl missing ↦ let raised = rw missing at e in cc
        | inr (props, has) ↦
            let (closed, e1) =
              (join-eq-nil_iff (some (extra_errors rules props place fs)) _).0 (rw has at e) in
            let (wanted, e2) =
              (join-eq-nil_iff
                  (required_of (get (codes "required") rules) >>= required_errors fs place) _).0
                e1 in
            elim (Option-cases (required_of (get (codes "required") rules))) [
              | inl missing ↦ let raised = rw missing at wanted in cc
              | inr (required, asks) ↦
                  object ruled typed has
                    ((extra_errors-eq-nil_iff rules props place fs).0 (some_inj.0 closed)) asks
                    ((required_errors-eq-nil_iff fs place required).0 (rw asks at wanted))
                    ((property_errors-eq-nil_iff fs agrees place props).0 e2) allowed
            ]
      ]

  Passes-by_rules :
      {node schema : Json}
      → fields_of node ≡ none
      → Passes p root node schema
      → (place : Place) → by_rules p root node [] schema place ≡ some []
  unfolding node_errors
  Passes-by_rules bare (object ruled typed has closed asks wanted each allowed) place = cc
  Passes-by_rules {node} bare (plain {rules = rules} ruled other fits allowed) place =
      rw (ruled, other) ((plain_iff node rules place).1 (fits, allowed))

  -- A value that is no object.
  by_rules_plain :
      (node : Json)
      → fields_of node ≡ none
      → (schema : Json) (place : Place)
      → (by_rules p root node [] schema place ≡ some []) ↔ Passes p root node schema
  unfolding node_errors
  by_rules_plain node bare schema place = (
    λ e. elim (Option-cases (rules_of p root schema)) [
      | inl missing ↦ let raised = rw missing at e in cc
      | inr (rules, ruled) ↦ elim (Bool-cases (has_type "object" rules)) [
        | inl typed ↦ let wrong = some_inj.0 (rw (ruled, typed, bare) at e) in cc
        | inr other ↦
            let (fits, allowed) = (plain_iff node rules place).0 (rw (ruled, other) at e) in
            plain ruled other fits allowed
      ]
    ],
    λ h. Passes-by_rules bare h place,
  )

  by_rules_object :
      (fs : Fields)
      → Agrees p root fs
      → (schema : Json) (place : Place)
      → (by_rules p root (obj fs) (field_checks p root fs) schema place ≡ some [])
        ↔ Passes p root (obj fs) schema
  unfolding node_errors object_errors
  by_rules_object fs agrees schema place = (
    λ e. elim (Option-cases (rules_of p root schema)) [
      | inl missing ↦ let raised = rw missing at e in cc
      | inr (rules, ruled) ↦ elim (Bool-cases (has_type "object" rules)) [
        | inl typed ↦
            let (e1, e2) =
              (join-eq-nil_iff (object_errors fs (field_checks p root fs) rules place) _).0
                (rw (ruled, typed) at e) in
            object_errors-Passes fs agrees schema rules place ruled typed e1
              ((value_errors-eq-nil_iff p (obj fs) rules place).0 e2)
        | inr other ↦
            let (fits, allowed) = (plain_iff (obj fs) rules place).0 (rw (ruled, other) at e) in
            plain ruled other fits allowed
      ]
    ],
    λ h. elim h [
      | object {rules = rules} {props = props} {required = required} ruled typed has closed asks
            wanted each allowed ↦
          rw
            (
              ruled,
              typed,
              has,
              asks,
              (extra_errors-eq-nil_iff rules props place fs).1 closed,
              (required_errors-eq-nil_iff fs place required).1 wanted,
              (property_errors-eq-nil_iff fs agrees place props).1 each,
              (value_errors-eq-nil_iff p (obj fs) rules place).1 allowed,
            )
            refl
      | plain {rules = rules} ruled other fits allowed ↦
          rw (ruled, other) ((plain_iff (obj fs) rules place).1 (fits, allowed))
    ],
  )

  mutual
    unfolding validate get

    validate_iff :
        (node schema : Json) (place : Place)
        → (validate p root node schema place ≡ some []) ↔ Passes p root node schema
    validate_iff null = by_rules_plain null refl
    validate_iff (bool b) = by_rules_plain (bool b) refl
    validate_iff (int n) = by_rules_plain (int n) refl
    validate_iff (neg n) = by_rules_plain (neg n) refl
    validate_iff (float t) = by_rules_plain (float t) refl
    validate_iff (str s) = by_rules_plain (str s) refl
    validate_iff (arr vs) = by_rules_plain (arr vs) refl
    validate_iff (obj fs) = by_rules_object fs (fields_agree fs)

    fields_agree : (fs : Fields) → Agrees p root fs
    fields_agree end k v e = cc
    fields_agree (field j w fs) k v e = elim (Bool-cases (text_eq j k)) [
      | inl same ↦ rw (← (some_inj.0 (rw same at e))) (validate_iff w)
      | inr other ↦ fields_agree fs k v (rw other at e)
    ]

  -- The validator ends without an exception and finds no error exactly if the document conforms to the
  -- schema: where the schema's type is the text "object", the value is an object that has the required
  -- keys and, where the schema excludes others, no other, and each property that is there conforms to
  -- its own schema in turn; where it is "array", "string", "integer" or "boolean", the value is of it;
  -- and the value is allowed by "enum", "const" and "const_false". A schema may point into the root by
  -- "$ref". Any other type, such as a list of types, and the schemas of an array's items ask for nothing.
  pub validate_document-eq-nil_iff :
      (doc : Json) → (validate_document p doc root ≡ some []) ↔ Conforms p root doc root
  unfolding validate_document
  validate_document-eq-nil_iff doc =
      let passes = validate_iff doc root [] in
      (λ e. Passes-Conforms p root (passes.0 e), λ h. passes.1 (Conforms-Passes p root h))
