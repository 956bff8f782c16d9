-- ===== src/SchemaCheck/Readings.antt =====
-- The tests of `_validate` on single values, and what they say of the values.
use xr_browser.Prelude.{
  ℕ, ◌≡◌, ◌↔◌, ◌⊎◌, refl, ap, ◌∙◌, String, Text, Bool, true, false, Option, none, some, List, [],
  ◌∷◌, codes, Some, any, Bool-cases, Option-cases, inl, inr, text_eq_iff, split, arith,
}
use mathlib.Core.Option.{some_inj}
use xr_browser.Json.{Json, null, bool, int, neg, float, str, arr, obj, Items, Fields, items, get}
use xr_browser.ListPackage.{Python, ◌>>=◌, is_int, truthy}
use xr_browser.SchemaCheck.{
  lstrip_hash, resolve, pointed, deref_at, fields_of, contains, is_array, is_text, is_bool,
  is_false, is_named, has_type, is_there, props_of, required_of, deref, rules_of,
}
use xr_browser.SchemaCheck.Conforming.{
  Leads, there, down, HasRules, own, unset, Among, in_list, in_text, in_keys, HasProps, no_props,
  props, Requires, nothing, each, IsThere, key,
}

any_iff :
    (test : Json → Bool) (vs : List Json) → (any test vs ≡ true) ↔ Some (λ v. test v ≡ true) vs
any_iff test [] = (λ e. cc, λ h. absurd h)
any_iff test (v ∷ vs) = (
  λ e. elim (Bool-cases (test v)) [
    | inl here ↦ inl here
    | inr other ↦ inr ((any_iff test vs).0 (ground arith))
  ],
  λ h. elim h [ inl here ↦ ground arith | inr later ↦ ground (arith, (any_iff test vs).1 later) ],
)

resolve-Leads : (ks : List Text) (v w : Json) → resolve ks v ≡ some w → Leads ks v w
unfolding resolve
resolve-Leads [] v w e = rw (some_inj.0 e) there
resolve-Leads (k ∷ ks) (obj fs) w e = elim (Option-cases (get k fs)) [
  | inl missing ↦ let stops = rw missing at e in cc
  | inr (u, found) ↦ down found (resolve-Leads ks u w (rw found at e))
]
resolve-Leads (k ∷ ks) null w e = cc
resolve-Leads (k ∷ ks) (bool b) w e = cc
resolve-Leads (k ∷ ks) (int n) w e = cc
resolve-Leads (k ∷ ks) (neg n) w e = cc
resolve-Leads (k ∷ ks) (float t) w e = cc
resolve-Leads (k ∷ ks) (str t) w e = cc
resolve-Leads (k ∷ ks) (arr vs) w e = cc

Leads-resolve : {ks : List Text} {v w : Json} → Leads ks v w → resolve ks v ≡ some w
unfolding resolve
Leads-resolve there = refl
Leads-resolve (down found l) = rw found (Leads-resolve l)

fields_of-obj : (v : Json) (fs : Fields) → fields_of v ≡ some fs → v ≡ obj fs
fields_of-obj (obj gs) fs e = ap obj (some_inj.0 e)
fields_of-obj null fs e = cc
fields_of-obj (bool b) fs e = cc
fields_of-obj (int n) fs e = cc
fields_of-obj (neg n) fs e = cc
fields_of-obj (float t) fs e = cc
fields_of-obj (str t) fs e = cc
fields_of-obj (arr vs) fs e = cc

module _ (p : Python) (root : Json) where
  pointed-HasRules :
      (schema rules : Fields) (ref : Json)
      → get (codes "$ref") schema ≡ some ref
      → truthy p ref ≡ true
      → (pointed root ref >>= fields_of) ≡ some rules
      → HasRules p root schema rules
  unfolding truthy
  pointed-HasRules schema rules (str t) is set e =
      elim (Option-cases (resolve (split b'/' (lstrip_hash t)) root)) [
        | inl missing ↦ let stops = rw missing at e in cc
        | inr (w, found) ↦
            let same : w ≡ obj rules = fields_of-obj w rules (rw found at e) in
            HasRules.pointed is (λ empty. ground arith)
              (resolve-Leads (split b'/' (lstrip_hash t)) root (obj rules) (found ∙ ap some same))
      ]
  pointed-HasRules schema rules null is set e = cc
  pointed-HasRules schema rules (bool b) is set e = cc
  pointed-HasRules schema rules (int n) is set e = cc
  pointed-HasRules schema rules (neg n) is set e = cc
  pointed-HasRules schema rules (float t) is set e = cc
  pointed-HasRules schema rules (arr vs) is set e = cc
  pointed-HasRules schema rules (obj fs) is set e = cc

  deref_at-HasRules :
      (schema rules : Fields) (o : Option Json)
      → get (codes "$ref") schema ≡ o
      → (deref_at p root schema o >>= fields_of) ≡ some rules
      → HasRules p root schema rules
  deref_at-HasRules schema rules none is e = rw (← (some_inj.0 e)) (own is)
  deref_at-HasRules schema rules (some ref) is e = elim (Bool-cases (truthy p ref)) [
    | inl set ↦ pointed-HasRules schema rules ref is set (rw set at e)
    | inr not_set ↦ rw (← (some_inj.0 (rw not_set at e))) (unset is not_set)
  ]

  pub rules_of-HasRules :
      (v : Json) (rules : Fields)
      → rules_of p root v ≡ some rules
      → (schema : Fields) × (v ≡ obj schema) × HasRules p root schema rules
  unfolding rules_of deref
  rules_of-HasRules (obj schema) rules e =
      (schema, refl, deref_at-HasRules schema rules (get (codes "$ref") schema) refl e)
  rules_of-HasRules null rules e = cc
  rules_of-HasRules (bool b) rules e = cc
  rules_of-HasRules (int n) rules e = cc
  rules_of-HasRules (neg n) rules e = cc
  rules_of-HasRules (float t) rules e = cc
  rules_of-HasRules (str t) rules e = cc
  rules_of-HasRules (arr vs) rules e = cc

  pub HasRules-rules_of :
      {schema rules : Fields}
      → HasRules p root schema rules
      → rules_of p root (obj schema) ≡ some rules
  unfolding rules_of deref truthy
  HasRules-rules_of (own is) = rw is refl
  HasRules-rules_of (unset is not_set) = rw (is, not_set) refl
  HasRules-rules_of (HasRules.pointed {ref = []} is filled l) = absurd (filled refl)
  HasRules-rules_of (HasRules.pointed {ref = c ∷ ref} is filled l) = rw (is, Leads-resolve l) refl

is_named_iff : (name : Text) (o : Option Json) → (is_named name o ≡ true) ↔ (o ≡ some (str name))
is_named_iff name (some (str t)) =
    (λ e. ap (λ u. some (str u)) ((text_eq_iff t name).0 e), λ e. (text_eq_iff t name).1 (cc e))
is_named_iff name none = (λ e. cc, λ e. cc)
is_named_iff name (some null) = (λ e. cc, λ e. cc)
is_named_iff name (some (bool b)) = (λ e. cc, λ e. cc)
is_named_iff name (some (int n)) = (λ e. cc, λ e. cc)
is_named_iff name (some (neg n)) = (λ e. cc, λ e. cc)
is_named_iff name (some (float t)) = (λ e. cc, λ e. cc)
is_named_iff name (some (arr vs)) = (λ e. cc, λ e. cc)
is_named_iff name (some (obj fs)) = (λ e. cc, λ e. cc)

pub has_type_iff :
    (name : String) (rules : Fields)
    → (has_type name rules ≡ true) ↔ (get (codes "type") rules ≡ some (str (codes name)))
unfolding has_type
has_type_iff name rules = is_named_iff (codes name) (get (codes "type") rules)

pub is_array_iff : (v : Json) → (is_array v ≡ true) ↔ ((vs : Items) × (v ≡ arr vs))
is_array_iff (arr vs) = (λ e. (vs, refl), λ h. refl)
is_array_iff null = (λ e. cc, λ h. cc h.1)
is_array_iff (bool b) = (λ e. cc, λ h. cc h.1)
is_array_iff (int n) = (λ e. cc, λ h. cc h.1)
is_array_iff (neg n) = (λ e. cc, λ h. cc h.1)
is_array_iff (float t) = (λ e. cc, λ h. cc h.1)
is_array_iff (str t) = (λ e. cc, λ h. cc h.1)
is_array_iff (obj fs) = (λ e. cc, λ h. cc h.1)

pub is_text_iff : (v : Json) → (is_text v ≡ true) ↔ ((t : Text) × (v ≡ str t))
is_text_iff (str t) = (λ e. (t, refl), λ h. refl)
is_text_iff null = (λ e. cc, λ h. cc h.1)
is_text_iff (bool b) = (λ e. cc, λ h. cc h.1)
is_text_iff (int n) = (λ e. cc, λ h. cc h.1)
is_text_iff (neg n) = (λ e. cc, λ h. cc h.1)
is_text_iff (float t) = (λ e. cc, λ h. cc h.1)
is_text_iff (arr vs) = (λ e. cc, λ h. cc h.1)
is_text_iff (obj fs) = (λ e. cc, λ h. cc h.1)

pub is_bool_iff : (v : Json) → (is_bool v ≡ true) ↔ ((b : Bool) × (v ≡ bool b))
is_bool_iff (bool b) = (λ e. (b, refl), λ h. refl)
is_bool_iff null = (λ e. cc, λ h. cc h.1)
is_bool_iff (int n) = (λ e. cc, λ h. cc h.1)
is_bool_iff (neg n) = (λ e. cc, λ h. cc h.1)
is_bool_iff (float t) = (λ e. cc, λ h. cc h.1)
is_bool_iff (str t) = (λ e. cc, λ h. cc h.1)
is_bool_iff (arr vs) = (λ e. cc, λ h. cc h.1)
is_bool_iff (obj fs) = (λ e. cc, λ h. cc h.1)

pub is_int_iff :
    (v : Json) → (is_int v ≡ true) ↔ (((n : ℕ) × (v ≡ int n)) ⊎ ((n : ℕ) × (v ≡ neg n)))
is_int_iff (int n) = (λ e. inl (n, refl), λ h. refl)
is_int_iff (neg n) = (λ e. inr (n, refl), λ h. refl)
is_int_iff null = (λ e. cc, λ h. elim h [ inl (n, e) ↦ cc e | inr (n, e) ↦ cc e ])
is_int_iff (bool b) = (λ e. cc, λ h. elim h [ inl (n, e) ↦ cc e | inr (n, e) ↦ cc e ])
is_int_iff (float t) = (λ e. cc, λ h. elim h [ inl (n, e) ↦ cc e | inr (n, e) ↦ cc e ])
is_int_iff (str t) = (λ e. cc, λ h. elim h [ inl (n, e) ↦ cc e | inr (n, e) ↦ cc e ])
is_int_iff (arr vs) = (λ e. cc, λ h. elim h [ inl (n, e) ↦ cc e | inr (n, e) ↦ cc e ])
is_int_iff (obj fs) = (λ e. cc, λ h. elim h [ inl (n, e) ↦ cc e | inr (n, e) ↦ cc e ])

pub is_false_iff : (v : Json) → (is_false v ≡ true) ↔ (v ≡ bool false)
is_false_iff (bool true) = (λ e. cc, λ e. cc)
is_false_iff (bool false) = (λ e. refl, λ e. refl)
is_false_iff null = (λ e. cc, λ e. cc)
is_false_iff (int n) = (λ e. cc, λ e. cc)
is_false_iff (neg n) = (λ e. cc, λ e. cc)
is_false_iff (float t) = (λ e. cc, λ e. cc)
is_false_iff (str t) = (λ e. cc, λ e. cc)
is_false_iff (arr vs) = (λ e. cc, λ e. cc)
is_false_iff (obj fs) = (λ e. cc, λ e. cc)

pub contains-Among : (p : Python) (v c : Json) → contains p v c ≡ some true → Among p v c
unfolding contains
contains-Among p v (arr ws) e = in_list ((any_iff (p.same v) (items ws)).0 (some_inj.0 e))
contains-Among p (str s) (str t) e = in_text (some_inj.0 e)
contains-Among p (str s) (obj fs) e = in_keys (some_inj.0 e)
contains-Among p null (str u) e = cc
contains-Among p (bool b) (str u) e = cc
contains-Among p (int n) (str u) e = cc
contains-Among p (neg n) (str u) e = cc
contains-Among p (float t) (str u) e = cc
contains-Among p (arr vs) (str u) e = cc
contains-Among p (obj fs) (str u) e = cc
contains-Among p null (obj gs) e = cc
contains-Among p (bool b) (obj gs) e = cc
contains-Among p (int n) (obj gs) e = cc
contains-Among p (neg n) (obj gs) e = cc
contains-Among p (float t) (obj gs) e = cc
contains-Among p (arr vs) (obj gs) e = cc
contains-Among p (obj fs) (obj gs) e = cc
contains-Among p v null e = cc
contains-Among p v (bool b) e = cc
contains-Among p v (int n) e = cc
contains-Among p v (neg n) e = cc
contains-Among p v (float t) e = cc

pub Among-contains : (p : Python) {v c : Json} → Among p v c → contains p v c ≡ some true
unfolding contains
Among-contains p (in_list {v} {ws} i) = ap some ((any_iff (p.same v) (items ws)).1 i)
Among-contains p (in_text i) = ap some i
Among-contains p (in_keys i) = ap some i

pub is_there-IsThere : (fs : Fields) (req : Json) → is_there fs req ≡ some true → IsThere fs req
unfolding is_there
is_there-IsThere fs (str k) e = key (some_inj.0 e)
is_there-IsThere fs null e = cc
is_there-IsThere fs (bool b) e = cc
is_there-IsThere fs (int n) e = cc
is_there-IsThere fs (neg n) e = cc
is_there-IsThere fs (float t) e = cc
is_there-IsThere fs (arr vs) e = cc
is_there-IsThere fs (obj gs) e = cc

pub IsThere-is_there : {fs : Fields} {req : Json} → IsThere fs req → is_there fs req ≡ some true
unfolding is_there
IsThere-is_there (key e) = ap some e

pub props_of-HasProps : (o : Option Json) (ps : Fields) → props_of o ≡ some ps → HasProps o ps
props_of-HasProps none ps e = rw (← (some_inj.0 e)) no_props
props_of-HasProps (some v) ps e = rw (fields_of-obj v ps e) props

pub HasProps-props_of : {o : Option Json} {ps : Fields} → HasProps o ps → props_of o ≡ some ps
HasProps-props_of no_props = refl
HasProps-props_of props = refl

pub required_of-Requires :
    (o : Option Json) (ks : List Json) → required_of o ≡ some ks → Requires o ks
required_of-Requires none ks e = rw (← (some_inj.0 e)) nothing
required_of-Requires (some v) ks e = each e

pub Requires-required_of :
    {o : Option Json} {ks : List Json} → Requires o ks → required_of o ≡ some ks
Requires-required_of nothing = refl
Requires-required_of (each e) = e
