-- ===== src/SchemaCheck/Described.antt =====
-- The documents that pass the tests of `_validate` are those that conform.
use xr_browser.Prelude.{
  ◌≡◌, ◌≢◌, ◌↔◌, refl, ap, true, false, Option, none, some, codes, All-map, Bool-cases, inl, inr,
}
use xr_browser.Json.{Json, bool, str, obj, Fields, get}
use xr_browser.ListPackage.{Python, or_null, truthy}
use xr_browser.SchemaCheck.{is_false, has_type}
use xr_browser.SchemaCheck.Checked
use xr_browser.SchemaCheck.Checked.{TypePasses, ValuePasses, ClosedPasses, Passes, PassAll}
use xr_browser.SchemaCheck.Conforming.{
  HasPlainType, IsAllowed, IsClosed, Conforms, ConformAll, object, plain, no_more, absent, present,
}
use xr_browser.SchemaCheck.Readings.{
  rules_of-HasRules, HasRules-rules_of, has_type_iff, is_array_iff, is_text_iff, is_bool_iff,
  is_int_iff, is_false_iff, contains-Among, Among-contains, is_there-IsThere, IsThere-is_there,
  props_of-HasProps, HasProps-props_of, required_of-Requires, Requires-required_of,
}

or_null-false : (o : Option Json) → is_false (or_null o) ≡ true → o ≡ some (bool false)
or_null-false none e = cc
or_null-false (some v) e = ap some ((is_false_iff v).0 e)

not_object :
    (rules : Fields)
    → get (codes "type") rules ≢ some (str (codes "object"))
    → has_type "object" rules ≡ false
not_object rules other = elim (Bool-cases (has_type "object" rules)) [
  | inl named ↦ absurd (other ((has_type_iff "object" rules).0 named))
  | inr no_object ↦ no_object
]

ClosedPasses-iff : (rules ps fs : Fields) → ClosedPasses rules ps fs ↔ IsClosed rules ps fs
ClosedPasses-iff rules ps fs =
    (λ h e. h (rw e refl), λ h e. h (or_null-false (get (codes "additionalProperties") rules) e))

TypePasses-iff : (node : Json) (rules : Fields) → TypePasses node rules ↔ HasPlainType node rules
TypePasses-iff node rules = (
  λ h. record {
    array = λ t. (is_array_iff node).0 (h.array ((has_type_iff "array" rules).1 t));
    string = λ t. (is_text_iff node).0 (h.string ((has_type_iff "string" rules).1 t));
    integer = λ t. (is_int_iff node).0 (h.integer ((has_type_iff "integer" rules).1 t));
    boolean = λ t. (is_bool_iff node).0 (h.boolean ((has_type_iff "boolean" rules).1 t));
  },
  λ h. record {
    array = λ t. (is_array_iff node).1 (h.array ((has_type_iff "array" rules).0 t));
    string = λ t. (is_text_iff node).1 (h.string ((has_type_iff "string" rules).0 t));
    integer = λ t. (is_int_iff node).1 (h.integer ((has_type_iff "integer" rules).0 t));
    boolean = λ t. (is_bool_iff node).1 (h.boolean ((has_type_iff "boolean" rules).0 t));
  },
)

module _ (p : Python) where
  truthy-some :
      (o : Option Json)
      → truthy p (or_null o) ≡ true
      → (c : Json) × (o ≡ some c) × (truthy p c ≡ true)
  unfolding truthy
  truthy-some none e = cc
  truthy-some (some c) e = (c, refl, e)

  ValuePasses-iff :
      (node : Json) (rules : Fields) → ValuePasses p node rules ↔ IsAllowed p node rules
  ValuePasses-iff node rules = (
    λ h. record {
      enum = λ c e. contains-Among p node c (h.enum c e);
      const = h.const;
      const_false = λ c e t. (is_false_iff node).0 (h.const_false (rw e t));
    },
    λ h. record {
      enum = λ c e. Among-contains p (h.enum c e);
      const = h.const;
      const_false = λ t.
          let (c, e, set) = truthy-some (get (codes "const_false") rules) t in
          (is_false_iff node).1 (h.const_false c e set);
    },
  )

module _ (p : Python) (root : Json) where
  mutual
    pub Passes-Conforms : {v schema : Json} → Passes p root v schema → Conforms p root v schema
    Passes-Conforms {schema = schema}
          (Checked.object {fs = fs} {rules = rules} {props = ps} {required = required} ruled typed
            has closed asks wanted every allowed) =
        let (s, is, found) = rules_of-HasRules p root schema rules ruled in
        rw is (
          object found ((has_type_iff "object" rules).0 typed) (props_of-HasProps _ ps has)
            ((ClosedPasses-iff rules ps fs).0 closed) (required_of-Requires _ required asks)
            (All-map required (λ k e. is_there-IsThere fs k e) wanted) (PassAll-ConformAll every)
            ((ValuePasses-iff p (obj fs) rules).0 allowed))
    Passes-Conforms {v} {schema} (Checked.plain {rules = rules} ruled other fits allowed) =
        let (s, is, found) = rules_of-HasRules p root schema rules ruled in
        rw is (
          plain found (λ e. cc (other, (has_type_iff "object" rules).1 e))
            ((TypePasses-iff v rules).0 fits) ((ValuePasses-iff p v rules).0 allowed))

    PassAll-ConformAll : {fs ps : Fields} → PassAll p root fs ps → ConformAll p root fs ps
    PassAll-ConformAll Checked.no_more = no_more
    PassAll-ConformAll (Checked.absent e h) = absent e (PassAll-ConformAll h)
    PassAll-ConformAll (Checked.present e c h) =
        present e (Passes-Conforms c) (PassAll-ConformAll h)

  mutual
    pub Conforms-Passes : {v schema : Json} → Conforms p root v schema → Passes p root v schema
    Conforms-Passes
          (object {fs = fs} {rules = rules} {ps = ps} {required = required} found typed has closed
            asks wanted every allowed) =
        Checked.object (HasRules-rules_of p root found) ((has_type_iff "object" rules).1 typed)
          (HasProps-props_of has) ((ClosedPasses-iff rules ps fs).1 closed)
          (Requires-required_of asks) (All-map required (λ k e. IsThere-is_there e) wanted)
          (ConformAll-PassAll every) ((ValuePasses-iff p (obj fs) rules).1 allowed)
    Conforms-Passes (plain {node = v} {rules = rules} found other fits allowed) =
        Checked.plain (HasRules-rules_of p root found) (not_object rules other)
          ((TypePasses-iff v rules).1 fits) ((ValuePasses-iff p v rules).1 allowed)

    ConformAll-PassAll : {fs ps : Fields} → ConformAll p root fs ps → PassAll p root fs ps
    ConformAll-PassAll no_more = Checked.no_more
    ConformAll-PassAll (absent e h) = Checked.absent e (ConformAll-PassAll h)
    ConformAll-PassAll (present e c h) =
        Checked.present e (Conforms-Passes c) (ConformAll-PassAll h)
