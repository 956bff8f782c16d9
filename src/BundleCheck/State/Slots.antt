-- ===== src/BundleCheck/State/Slots.antt =====
-- The slots of an apply state as the format has them, against the tests of `slot_ok`.
use xr_browser.Prelude.{
  ℕ, ◌<◌, ◌≡◌, ◌↔◌, ◌⊎◌, refl, String, Text, true, false, Option, none, some, [], ◌∷◌, codes, inl,
  inr, arith,
}
use xr_browser.Json.{Json, null, bool, int, neg, float, str, arr, obj, Fields, get}
use xr_browser.ListPackage.{is_int, is_filled, or_null}
use xr_browser.BundleCheck.State.{
  slot_failure, vacancy_failure, present_failure, is_true, is_present, part, int_ge,
}

-- The value of a key, where the value is an object that has it.
abbrev pub held : String → Json → Option Json
held k (obj fs) = get (codes k) fs
held k _ = none

pub data IsText : Option Json → Type 0 where
  filled : {c : ℕ} {t : Text} → IsText (some (str (c ∷ t)))

pub data IsInteger : Option Json → Type 0 where
  natural : {n : ℕ} → IsInteger (some (int n))
  below_zero : {n : ℕ} → IsInteger (some (neg n))

-- A slot that is not present, or one with a bundle, a version and a digest.
pub data IsSlot (slot : Json) : Type 0 where
  vacant : held "present" slot ≡ some (bool false) → IsSlot slot
  occupied :
      held "present" slot ≡ some (bool true)
      → IsText (held "bundle_id" slot)
      → IsInteger (held "version" slot)
      → IsText (held "digest" slot)
      → IsSlot slot

abbrev pub IsPresent : Json → Type 0
IsPresent slot = held "present" slot ≡ some (bool true)

-- Of two integers, the first is less.
pub data IsOlder : Option Json → Option Json → Type 0 where
  from_zero : {m n : ℕ} → m < n → IsOlder (some (int m)) (some (int n))
  across : {m n : ℕ} → IsOlder (some (neg m)) (some (int n))
  negative : {m n : ℕ} → n < m → IsOlder (some (neg m)) (some (neg n))

is_filled_iff : (o : Option Json) → (is_filled (or_null o) ≡ true) ↔ IsText o
is_filled_iff none = (λ e. cc, λ h. elim h [ ])
is_filled_iff (some null) = (λ e. cc, λ h. elim h [ ])
is_filled_iff (some (bool b)) = (λ e. cc, λ h. elim h [ ])
is_filled_iff (some (int n)) = (λ e. cc, λ h. elim h [ ])
is_filled_iff (some (neg n)) = (λ e. cc, λ h. elim h [ ])
is_filled_iff (some (float t)) = (λ e. cc, λ h. elim h [ ])
is_filled_iff (some (str [])) = (λ e. cc, λ h. elim h [ ])
is_filled_iff (some (str (c ∷ t))) = (λ e. filled, λ h. refl)
is_filled_iff (some (arr vs)) = (λ e. cc, λ h. elim h [ ])
is_filled_iff (some (obj fs)) = (λ e. cc, λ h. elim h [ ])

is_int_iff : (o : Option Json) → (is_int (or_null o) ≡ true) ↔ IsInteger o
is_int_iff none = (λ e. cc, λ h. elim h [ ])
is_int_iff (some null) = (λ e. cc, λ h. elim h [ ])
is_int_iff (some (bool b)) = (λ e. cc, λ h. elim h [ ])
is_int_iff (some (int n)) = (λ e. natural, λ h. refl)
is_int_iff (some (neg n)) = (λ e. below_zero, λ h. refl)
is_int_iff (some (float t)) = (λ e. cc, λ h. elim h [ ])
is_int_iff (some (str t)) = (λ e. cc, λ h. elim h [ ])
is_int_iff (some (arr vs)) = (λ e. cc, λ h. elim h [ ])
is_int_iff (some (obj fs)) = (λ e. cc, λ h. elim h [ ])

present_failure-eq-none_iff :
    (s : Fields)
    → (present_failure s ≡ none) ↔ (
        IsText (get (codes "bundle_id") s)
        × IsInteger (get (codes "version") s)
        × IsText (get (codes "digest") s))
unfolding present_failure
present_failure-eq-none_iff s =
    let b = is_filled_iff (get (codes "bundle_id") s) in
    let v = is_int_iff (get (codes "version") s) in
    let d = is_filled_iff (get (codes "digest") s) in
    (
      λ e. (b.0 (ground arith), v.0 (ground arith), d.0 (ground arith)),
      λ h. rw (b.1 h.0, v.1 h.1, d.1 h.2) refl,
    )

pub occupied-IsText : {slot : Json} → IsSlot slot → IsPresent slot → IsText (held "bundle_id" slot)
occupied-IsText (vacant e) h = absurd (cc (e, h))
occupied-IsText (occupied e b v d) h = b

pub occupied-IsInteger :
    {slot : Json} → IsSlot slot → IsPresent slot → IsInteger (held "version" slot)
occupied-IsInteger (vacant e) h = absurd (cc (e, h))
occupied-IsInteger (occupied e b v d) h = v

-- What "present" must hold, and what the slot has then.
Occupied : Fields → Option Json → Type 0
Occupied s o =
    (o ≡ some (bool false))
    ⊎ ((o ≡ some (bool true))
        × IsText (get (codes "bundle_id") s)
        × IsInteger (get (codes "version") s)
        × IsText (get (codes "digest") s))

vacancy_failure-eq-none_iff :
    (s : Fields) (o : Option Json) → (vacancy_failure s o ≡ none) ↔ Occupied s o
unfolding Occupied
vacancy_failure-eq-none_iff s (some (bool true)) = (
  λ e. let (b, v, d) = (present_failure-eq-none_iff s).0 e in inr (refl, b, v, d),
  λ h. elim h [ inl n ↦ cc n | inr (y, b, v, d) ↦ (present_failure-eq-none_iff s).1 (b, v, d) ],
)
vacancy_failure-eq-none_iff s (some (bool false)) = (λ e. inl refl, λ h. refl)
vacancy_failure-eq-none_iff s none =
    (λ e. cc, λ h. elim h [ inl n ↦ cc n | inr (y, b, v, d) ↦ cc y ])
vacancy_failure-eq-none_iff s (some null) =
    (λ e. cc, λ h. elim h [ inl n ↦ cc n | inr (y, b, v, d) ↦ cc y ])
vacancy_failure-eq-none_iff s (some (int n)) =
    (λ e. cc, λ h. elim h [ inl n ↦ cc n | inr (y, b, v, d) ↦ cc y ])
vacancy_failure-eq-none_iff s (some (neg n)) =
    (λ e. cc, λ h. elim h [ inl n ↦ cc n | inr (y, b, v, d) ↦ cc y ])
vacancy_failure-eq-none_iff s (some (float t)) =
    (λ e. cc, λ h. elim h [ inl n ↦ cc n | inr (y, b, v, d) ↦ cc y ])
vacancy_failure-eq-none_iff s (some (str t)) =
    (λ e. cc, λ h. elim h [ inl n ↦ cc n | inr (y, b, v, d) ↦ cc y ])
vacancy_failure-eq-none_iff s (some (arr vs)) =
    (λ e. cc, λ h. elim h [ inl n ↦ cc n | inr (y, b, v, d) ↦ cc y ])
vacancy_failure-eq-none_iff s (some (obj fs)) =
    (λ e. cc, λ h. elim h [ inl n ↦ cc n | inr (y, b, v, d) ↦ cc y ])

pub slot_failure-eq-none_iff : (slot : Json) → (slot_failure slot ≡ none) ↔ IsSlot slot
unfolding slot_failure Occupied
slot_failure-eq-none_iff (obj s) =
    let law = vacancy_failure-eq-none_iff s (get (codes "present") s) in
    (
      λ e. elim (law.0 e) [ inl n ↦ vacant n | inr (y, b, v, d) ↦ occupied y b v d ],
      λ h. elim h [ vacant n ↦ law.1 (inl n) | occupied y b v d ↦ law.1 (inr (y, b, v, d)) ],
    )
slot_failure-eq-none_iff null = (λ e. cc, λ h. elim h [ vacant n ↦ cc n | occupied y b v d ↦ cc y ])
slot_failure-eq-none_iff (bool b) =
    (λ e. cc, λ h. elim h [ vacant n ↦ cc n | occupied y b v d ↦ cc y ])
slot_failure-eq-none_iff (int n) =
    (λ e. cc, λ h. elim h [ vacant n ↦ cc n | occupied y b v d ↦ cc y ])
slot_failure-eq-none_iff (neg n) =
    (λ e. cc, λ h. elim h [ vacant n ↦ cc n | occupied y b v d ↦ cc y ])
slot_failure-eq-none_iff (float t) =
    (λ e. cc, λ h. elim h [ vacant n ↦ cc n | occupied y b v d ↦ cc y ])
slot_failure-eq-none_iff (str t) =
    (λ e. cc, λ h. elim h [ vacant n ↦ cc n | occupied y b v d ↦ cc y ])
slot_failure-eq-none_iff (arr vs) =
    (λ e. cc, λ h. elim h [ vacant n ↦ cc n | occupied y b v d ↦ cc y ])

is_true_iff : (o : Option Json) → (is_true o ≡ true) ↔ (o ≡ some (bool true))
is_true_iff (some (bool true)) = (λ e. refl, λ e. refl)
is_true_iff (some (bool false)) = (λ e. cc, λ e. cc)
is_true_iff none = (λ e. cc, λ e. cc)
is_true_iff (some null) = (λ e. cc, λ e. cc)
is_true_iff (some (int n)) = (λ e. cc, λ e. cc)
is_true_iff (some (neg n)) = (λ e. cc, λ e. cc)
is_true_iff (some (float t)) = (λ e. cc, λ e. cc)
is_true_iff (some (str t)) = (λ e. cc, λ e. cc)
is_true_iff (some (arr vs)) = (λ e. cc, λ e. cc)
is_true_iff (some (obj fs)) = (λ e. cc, λ e. cc)

pub is_present_iff : (slot : Json) → (is_present slot ≡ true) ↔ IsPresent slot
is_present_iff (obj s) = is_true_iff (get (codes "present") s)
is_present_iff null = (λ e. cc, λ e. cc)
is_present_iff (bool b) = (λ e. cc, λ e. cc)
is_present_iff (int n) = (λ e. cc, λ e. cc)
is_present_iff (neg n) = (λ e. cc, λ e. cc)
is_present_iff (float t) = (λ e. cc, λ e. cc)
is_present_iff (str t) = (λ e. cc, λ e. cc)
is_present_iff (arr vs) = (λ e. cc, λ e. cc)

pub int_ge_iff :
    {v w : Option Json}
    → IsInteger v
    → IsInteger w
    → (int_ge (or_null v) (or_null w) ≡ false) ↔ IsOlder v w
int_ge_iff natural natural =
    (λ e. from_zero (ground arith), λ h. elim h [ from_zero l ↦ ground arith ])
int_ge_iff natural below_zero = (λ e. cc, λ h. elim h [ ])
int_ge_iff below_zero natural = (λ e. across, λ h. refl)
int_ge_iff below_zero below_zero =
    (λ e. negative (ground arith), λ h. elim h [ negative l ↦ ground arith ])

pub part-held : (k : String) (slot : Json) → part k slot ≡ or_null (held k slot)
part-held k (obj s) = refl
part-held k null = refl
part-held k (bool b) = refl
part-held k (int n) = refl
part-held k (neg n) = refl
part-held k (float t) = refl
part-held k (str t) = refl
part-held k (arr vs) = refl
