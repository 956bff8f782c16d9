-- ===== src/SchemaCheck/Steps.antt =====
-- The tests of `_validate` that find no problem, one by one.
use mathlib.Core.Option.{some_inj}
use xr_browser.Prelude.{
  ◌≡◌, ◌↔◌, refl, Text, Bool, true, false, not, ◌&&◌, Option, none, some, List, [], ◌∷◌, codes,
  flag, flag-eq-nil_iff, append-eq-nil, All, Bool-cases, inl, inr, text_eq, text_eq_iff, text_mem,
  arith,
}
use xr_browser.Json.{
  Json, null, bool, int, neg, float, str, arr, obj, Fields, end, field, keys, get,
}
use xr_browser.ListPackage.{Python, ◌>>=◌, or_null, truthy}
use xr_browser.SchemaCheck.{
  Place, Errors, Problem, additional_property, missing_property, not_in_enum, not_const,
  must_be_false, join, placed, one_problem, contains, is_false, is_named, has_type, type_problems,
  extra_errors, is_there, required_errors, enum_errors, const_errors, value_errors,
}
use xr_browser.SchemaCheck.Checked.{TypePasses, ValuePasses, ClosedPasses}

pub join-eq-nil_iff : (a b : Option Errors) → (join a b ≡ some []) ↔ ((a ≡ some []) × (b ≡ some []))
join-eq-nil_iff none b = (λ e. cc, λ h. cc)
join-eq-nil_iff (some es) none = (λ e. cc, λ h. cc)
join-eq-nil_iff (some es) (some more) = (
  λ e. let (one, two) = append-eq-nil es more (some_inj.0 e) in (rw one refl, rw two refl),
  λ h. rw (some_inj.0 h.0, some_inj.0 h.1) refl,
)

one_problem-eq-nil_iff :
    (place : Place) (test : Bool) (problem : Problem)
    → (one_problem place test problem ≡ some []) ↔ (test ≡ false)
one_problem-eq-nil_iff place true problem = (λ e. let n = some_inj.0 e in cc, λ e. cc)
one_problem-eq-nil_iff place false problem = (λ e. refl, λ e. refl)

pub placed-eq-nil_iff :
    (place : Place) (problems : List Problem) → (placed place problems ≡ []) ↔ (problems ≡ [])
placed-eq-nil_iff place [] = (λ e. refl, λ e. refl)
placed-eq-nil_iff place (q ∷ qs) = (λ e. cc, λ e. cc)

is_named-is_named :
    (o : Option Json) (name other : Text)
    → text_eq name other ≡ false
    → is_named name o ≡ true
    → is_named other o ≡ false
is_named-is_named none name other differ e = refl
is_named-is_named (some (str t)) name other differ e = rw ((text_eq_iff t name).0 e) differ
is_named-is_named (some null) name other differ e = refl
is_named-is_named (some (bool b)) name other differ e = refl
is_named-is_named (some (int n)) name other differ e = refl
is_named-is_named (some (neg n)) name other differ e = refl
is_named-is_named (some (float t)) name other differ e = refl
is_named-is_named (some (arr vs)) name other differ e = refl
is_named-is_named (some (obj fs)) name other differ e = refl

module _ (rules : Fields) where
  abbrev type_named : Option Json
  type_named = get (codes "type") rules

  string_only : has_type "string" rules ≡ true → has_type "array" rules ≡ false
  unfolding has_type text_eq
  string_only = is_named-is_named type_named (codes "string") (codes "array") refl

  integer_only :
      has_type "integer" rules ≡ true
      → (has_type "array" rules ≡ false) × (has_type "string" rules ≡ false)
  unfolding has_type text_eq
  integer_only e = (
    is_named-is_named type_named (codes "integer") (codes "array") refl e,
    is_named-is_named type_named (codes "integer") (codes "string") refl e,
  )

  boolean_only :
      has_type "boolean" rules ≡ true
      → (has_type "array" rules ≡ false)
        × (has_type "string" rules ≡ false)
        × (has_type "integer" rules ≡ false)
  unfolding has_type text_eq
  boolean_only e = (
    is_named-is_named type_named (codes "boolean") (codes "array") refl e,
    is_named-is_named type_named (codes "boolean") (codes "string") refl e,
    is_named-is_named type_named (codes "boolean") (codes "integer") refl e,
  )

pub type_problems-eq-nil_iff :
    (node : Json) (rules : Fields) → (type_problems node rules ≡ []) ↔ TypePasses node rules
unfolding type_problems
type_problems-eq-nil_iff node rules = (
  λ e. record {
    array = λ t. ground arith;
    string = λ t. ground (arith, string_only rules t);
    integer = λ t. ground (arith, (integer_only rules t).0, (integer_only rules t).1);
    boolean = λ t. let (a, s, i) = boolean_only rules t in ground arith;
  },
  λ h. ground (arith, h.array, h.string, h.integer, h.boolean),
)

there_of :
    (place : Place) (problem : Problem) (o : Option Bool)
    → (o >>= λ there. one_problem place (not there) problem) ≡ some []
    → o ≡ some true
there_of place problem none e = cc
there_of place problem (some true) e = refl
there_of place problem (some false) e =
    let raised = (one_problem-eq-nil_iff place true problem).0 e in cc

module _ (p : Python) (node : Json) where
  enum_errors-eq-nil_iff :
      (place : Place) (o : Option Json)
      → (enum_errors p node place o ≡ some [])
        ↔ ((c : Json) → o ≡ some c → contains p node c ≡ some true)
  unfolding enum_errors
  enum_errors-eq-nil_iff place none = (λ e c h. cc, λ h. refl)
  enum_errors-eq-nil_iff place (some enum) = (
    λ e c h. rw (← (some_inj.0 h)) (there_of place not_in_enum (contains p node enum) e),
    λ h. rw (h enum refl) refl,
  )

  const_errors-eq-nil_iff :
      (place : Place) (o : Option Json)
      → (const_errors p node place o ≡ some []) ↔ ((c : Json) → o ≡ some c → p.same node c ≡ true)
  unfolding const_errors
  const_errors-eq-nil_iff place none = (λ e c h. cc, λ h. refl)
  const_errors-eq-nil_iff place (some value) = (
    λ e c h.
        let same = (one_problem-eq-nil_iff place (not (p.same node value)) not_const).0 e in
        rw (← (some_inj.0 h)) (ground arith),
    λ h. rw (h value refl) refl,
  )

  pub value_errors-eq-nil_iff :
      (rules : Fields) (place : Place)
      → (value_errors p node rules place ≡ some []) ↔ ValuePasses p node rules
  unfolding value_errors
  value_errors-eq-nil_iff rules place =
      let enums = enum_errors-eq-nil_iff place (get (codes "enum") rules) in
      let consts = const_errors-eq-nil_iff place (get (codes "const") rules) in
      let asked = truthy p (or_null (get (codes "const_false") rules)) in
      let falses = one_problem-eq-nil_iff place (asked && not (is_false node)) must_be_false in
      (
        λ e.
            let (e1, e2) =
              (join-eq-nil_iff (enum_errors p node place (get (codes "enum") rules)) _).0 e in
            let (e3, e4) =
              (join-eq-nil_iff (const_errors p node place (get (codes "const") rules)) _).0 e2 in
            let fine = falses.0 e4 in
            record { enum = enums.0 e1; const = consts.0 e3; const_false = λ t. ground arith },
        λ h. (join-eq-nil_iff (enum_errors p node place (get (codes "enum") rules)) _).1 (
          enums.1 h.enum,
          (join-eq-nil_iff (const_errors p node place (get (codes "const") rules)) _).1
              (consts.1 h.const, falses.1 (ground (arith, h.const_false))),
        ),
      )

pub extra_errors-eq-nil_iff :
    (rules props : Fields) (place : Place) (fs : Fields)
    → (extra_errors rules props place fs ≡ []) ↔ ClosedPasses rules props fs
unfolding extra_errors
extra_errors-eq-nil_iff rules props place end = (λ e h. tt, λ h. refl)
extra_errors-eq-nil_iff rules props place (field k v fs) =
    let closed = is_false (or_null (get (codes "additionalProperties") rules)) in
    let here = flag (closed && not (text_mem k (keys props))) additional_property in
    let rest = extra_errors-eq-nil_iff rules props place fs in
    (
      λ e c.
          let (e1, e2) = append-eq-nil (placed (str k ∷ place) here) _ e in
          let fine =
            (flag-eq-nil_iff (closed && not (text_mem k (keys props))) additional_property).0
              ((placed-eq-nil_iff (str k ∷ place) here).0 e1) in
          (ground arith, rest.0 e2 c),
      λ h. elim (Bool-cases closed) [
        | inl c ↦ rw (c, (h c).0) (rest.1 (λ d. (h d).1))
        | inr c ↦ rw c (rest.1 (λ d. (h d).1))
      ],
    )

pub required_errors-eq-nil_iff :
    (fs : Fields) (place : Place) (reqs : List Json)
    → (required_errors fs place reqs ≡ some []) ↔ All (λ req. is_there fs req ≡ some true) reqs
unfolding required_errors
required_errors-eq-nil_iff fs place [] = (λ e. tt, λ h. refl)
required_errors-eq-nil_iff fs place (req ∷ reqs) =
    let rest = required_errors-eq-nil_iff fs place reqs in
    (
      λ e.
          let (e1, e2) = (join-eq-nil_iff _ (required_errors fs place reqs)).0 e in
          (there_of (req ∷ place) missing_property (is_there fs req) e1, rest.0 e2),
      λ h. rw (h.0, rest.1 h.1) refl,
    )
