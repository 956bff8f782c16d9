-- ===== src/BundleCheck/State.antt =====
-- `check_state` of tools/list_bundle_check.py: the laws of the apply state.
pub mod Checks
pub mod Slots
pub mod Laws
use xr_browser.Prelude.{
  flag, ℕ, zero, suc, ◌+◌, String, Text, Bool, true, false, not, ◌||◌, ◌&&◌, Option, none, some,
  List, [], ◌∷◌, ◌++◌, codes, any, leb, ltb, length, if◌then◌else◌,
}
use xr_browser.Json.{Json, bool, int, neg, str, arr, obj, Fields, items, get}
use xr_browser.ListPackage.{Python, is_int, is_filled, or_null}

-- What slot_ok reports.
pub data BadSlot : Type 0 where
  not_a_slot present_not_bool : BadSlot
  bad_field : String → BadSlot

pub data StateFailure : Type 0 where
  bad_slot : String → BadSlot → StateFailure
  bad_pin : ℕ → BadSlot → StateFailure
  pins_not_slots too_many_pins pins_missing_active lkg_duplicates_active not_monotonic :
      StateFailure
  bad_mono : StateFailure

-- The tests of the fields of a slot that is present.
unfoldable pub present_failure : Fields → Option BadSlot
present_failure s =
    if not (is_filled (or_null (get (codes "bundle_id") s)))
    then some (bad_field "bundle_id")
    else if not (is_int (or_null (get (codes "version") s)))
    then some (bad_field "version")
    else if not (is_filled (or_null (get (codes "digest") s)))
    then some (bad_field "digest")
    else none

-- The tests of a slot by the value of "present".
abbrev pub vacancy_failure : Fields → Option Json → Option BadSlot
vacancy_failure s none = some not_a_slot
vacancy_failure s (some (bool true)) = present_failure s
vacancy_failure s (some (bool false)) = none
vacancy_failure s (some _) = some present_not_bool

-- slot_ok: what is wrong with a slot
unfoldable pub slot_failure : Json → Option BadSlot
slot_failure (obj s) = vacancy_failure s (get (codes "present") s)
slot_failure _ = some not_a_slot

-- A part of the checks: it ends them with the failures so far, or has read a value.
pub data Checked {ℓ} (A : Type ℓ) : Type ℓ where
  ends : List StateFailure → Checked A
  reads : A → Checked A

infixl 5 ◌>>=◌
abbrev pub ◌>>=◌ {ℓ κ} : {A : Type ℓ} {B : Type κ} → Checked A → (A → Checked B) → Checked B
ends fs >>= next = ends fs
reads a >>= next = next a

abbrev pub failures : Checked (List StateFailure) → List StateFailure
failures (ends fs) = fs
failures (reads fs) = fs

-- The loop over "active" and "lkg": a missing slot ends the checks without a failure.
unfoldable pub slot_at : String → Fields → Checked Json
slot_at place state = elim (get (codes place) state) [
  | none ↦ ends []
  | some s ↦ elim (slot_failure s) [ some b ↦ ends (bad_slot place b ∷ []) | none ↦ reads s ]
]

-- The first pin that is no slot.
unfoldable pub pin_failure : ℕ → List Json → Option StateFailure
pin_failure i [] = none
pin_failure i (s ∷ ss) = elim (slot_failure s) [
  | some b ↦ some (bad_pin i b)
  | none ↦ pin_failure (i + 1) ss
]

unfoldable pub pins_at : Option Json → Checked (List Json)
pins_at (some (arr vs)) = elim (pin_failure 0 (items vs)) [
  | some f ↦ ends (f ∷ pins_not_slots ∷ [])
  | none ↦ reads (items vs)
]
pins_at _ = ends (pins_not_slots ∷ [])

-- s["present"], of a slot that has passed
abbrev pub is_true : Option Json → Bool
is_true (some (bool b)) = b
is_true _ = false

abbrev pub is_present : Json → Bool
is_present (obj s) = is_true (get (codes "present") s)
is_present _ = false

abbrev pub part : String → Json → Json
part k (obj s) = or_null (get (codes k) s)
part k _ = Json.null

-- a >= b, for two integers
abbrev pub int_ge : Json → Json → Bool
int_ge (int m) (int n) = leb n m
int_ge (int m) (neg n) = true
int_ge (neg m) (int n) = false
int_ge (neg m) (neg n) = leb m n
int_ge _ _ = false

abbrev pub mono_ok : Json → Bool
mono_ok (int n) = true
mono_ok (neg zero) = true
mono_ok _ = false

module _ (p : Python) where
  unfoldable pub lkg_failures : Json → Json → List StateFailure
  lkg_failures act lkg =
      if not (is_present act && is_present lkg)
      then []
      else if p.same lkg act
      then lkg_duplicates_active ∷ []
      else flag
          (int_ge (part "version" lkg) (part "version" act)
            || not (p.same (part "bundle_id" lkg) (part "bundle_id" act)))
          not_monotonic

  unfoldable pub check_state : Fields → List StateFailure
  check_state state = failures (do
    act ← slot_at "active" state
    lkg ← slot_at "lkg" state
    pins ← pins_at (get (codes "pins") state)
    reads (
        flag (ltb 2 (length pins)) too_many_pins
        ++ (flag (is_present act && not (any (p.same act) pins)) pins_missing_active
            ++ (lkg_failures act lkg
                ++ flag (not (mono_ok (or_null (get (codes "last_apply_mono") state)))) bad_mono))))
