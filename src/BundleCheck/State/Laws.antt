-- ===== src/BundleCheck/State/Laws.antt =====
-- The apply states that `check_state` of tools/list_bundle_check.py passes, told by the state alone.
use xr_browser.Prelude.{
  ℕ, zero, suc, ◌≤◌, ◌≡◌, ◌↔◌, refl, true, false, Option, none, some, List, [], ◌∷◌, All, All-map,
  Some, Bool-cases, inl, inr, any, length, codes, arith,
}
use xr_browser.Json.{Json, null, bool, int, neg, float, str, arr, obj, Items, Fields, items, get}
use xr_browser.ListPackage.{Python, or_null}
use xr_browser.BundleCheck.State.{mono_ok, check_state}
use xr_browser.BundleCheck.State.Slots.{
  held, IsSlot, IsPresent, IsOlder, slot_failure-eq-none_iff, is_present_iff, int_ge_iff, part-held,
  occupied-IsInteger,
}
use xr_browser.BundleCheck.State.Checks.{LawsPass, PassesChecks, check_state-Passes_iff}

-- -1, or a number from 0 on.
pub data IsApplyTime : Option Json → Type 0 where
  never : IsApplyTime (some (neg 0))
  at_time : {n : ℕ} → IsApplyTime (some (int n))

-- The laws of a state with two slots and pins.
pub record IsLawful (p : Python) (state : Fields) (act lkg : Json) (pins : List Json) : Type 0 where
  pub active_slot : IsSlot act
  pub lkg_slot : IsSlot lkg
  pub pin_slots : All IsSlot pins
  pub few : length pins ≤ 2
  pub pinned : IsPresent act → Some (λ s. p.same act s ≡ true) pins
  pub apart : IsPresent act → IsPresent lkg → p.same lkg act ≡ false
  pub older : IsPresent act → IsPresent lkg → IsOlder (held "version" lkg) (held "version" act)
  pub one_bundle :
      IsPresent act
      → IsPresent lkg
      → p.same (or_null (held "bundle_id" lkg)) (or_null (held "bundle_id" act)) ≡ true
  pub mono : IsApplyTime (get (codes "last_apply_mono") state)

-- The states that have no violation.
pub data Passes (p : Python) (state : Fields) : Type 0 where
  no_active : get (codes "active") state ≡ none → Passes p state
  no_lkg :
      {act : Json}
      → get (codes "active") state ≡ some act
      → IsSlot act
      → get (codes "lkg") state ≡ none
      → Passes p state
  lawful :
      {act lkg : Json} {pins : Items}
      → get (codes "active") state ≡ some act
      → get (codes "lkg") state ≡ some lkg
      → get (codes "pins") state ≡ some (arr pins)
      → IsLawful p state act lkg (items pins)
      → Passes p state

any_iff :
    (p : Python) (act : Json) (pins : List Json)
    → (any (p.same act) pins ≡ true) ↔ Some (λ s. p.same act s ≡ true) pins
any_iff p act [] = (λ e. cc, λ h. absurd h)
any_iff p act (s ∷ pins) = (
  λ e. elim (Bool-cases (p.same act s)) [
    | inl here ↦ inl here
    | inr other ↦ inr ((any_iff p act pins).0 (ground arith))
  ],
  λ h. elim h [
    | inl here ↦ ground arith
    | inr later ↦ ground (arith, (any_iff p act pins).1 later)
  ],
)

mono_ok_iff : (o : Option Json) → (mono_ok (or_null o) ≡ true) ↔ IsApplyTime o
mono_ok_iff (some (int n)) = (λ e. at_time, λ h. refl)
mono_ok_iff (some (neg zero)) = (λ e. never, λ h. refl)
mono_ok_iff (some (neg (suc n))) = (λ e. cc, λ h. elim h [ ])
mono_ok_iff none = (λ e. cc, λ h. elim h [ ])
mono_ok_iff (some null) = (λ e. cc, λ h. elim h [ ])
mono_ok_iff (some (bool b)) = (λ e. cc, λ h. elim h [ ])
mono_ok_iff (some (float t)) = (λ e. cc, λ h. elim h [ ])
mono_ok_iff (some (str t)) = (λ e. cc, λ h. elim h [ ])
mono_ok_iff (some (arr vs)) = (λ e. cc, λ h. elim h [ ])
mono_ok_iff (some (obj fs)) = (λ e. cc, λ h. elim h [ ])

module _ (p : Python) (state : Fields) (act lkg : Json) (pins : List Json) where
  LawsPass-IsLawful : LawsPass p state act lkg pins → IsLawful p state act lkg pins
  LawsPass-IsLawful w =
      let act_slot = (slot_failure-eq-none_iff act).0 w.active_slot in
      let lkg_slot = (slot_failure-eq-none_iff lkg).0 w.lkg_slot in
      record {
        active_slot = act_slot;
        lkg_slot = lkg_slot;
        pin_slots = All-map pins (λ s e. (slot_failure-eq-none_iff s).0 e) w.pin_slots;
        few = w.few;
        pinned = λ a. (any_iff p act pins).0 (w.pinned ((is_present_iff act).1 a));
        apart = λ a l. w.apart ((is_present_iff act).1 a) ((is_present_iff lkg).1 l);
        older = λ a l.
            (int_ge_iff (occupied-IsInteger lkg_slot l) (occupied-IsInteger act_slot a)).0 (
              rw (part-held "version" lkg, part-held "version" act) at
                (w.older ((is_present_iff act).1 a) ((is_present_iff lkg).1 l)));
        one_bundle = λ a l.
            rw (part-held "bundle_id" lkg, part-held "bundle_id" act) at
              (w.one_bundle ((is_present_iff act).1 a) ((is_present_iff lkg).1 l));
        mono = (mono_ok_iff (get (codes "last_apply_mono") state)).0 w.mono;
      }

  IsLawful-LawsPass : IsLawful p state act lkg pins → LawsPass p state act lkg pins
  IsLawful-LawsPass w = record {
    active_slot = (slot_failure-eq-none_iff act).1 w.active_slot;
    lkg_slot = (slot_failure-eq-none_iff lkg).1 w.lkg_slot;
    pin_slots = All-map pins (λ s e. (slot_failure-eq-none_iff s).1 e) w.pin_slots;
    few = w.few;
    pinned = λ a. (any_iff p act pins).1 (w.pinned ((is_present_iff act).0 a));
    apart = λ a l. w.apart ((is_present_iff act).0 a) ((is_present_iff lkg).0 l);
    older = λ a l.
        let here = (is_present_iff act).0 a in
        let there = (is_present_iff lkg).0 l in
        rw (part-held "version" lkg, part-held "version" act)
          ((int_ge_iff (occupied-IsInteger w.lkg_slot there)
              (occupied-IsInteger w.active_slot here)).1
            (w.older here there));
    one_bundle = λ a l.
        rw (part-held "bundle_id" lkg, part-held "bundle_id" act)
          (w.one_bundle ((is_present_iff act).0 a) ((is_present_iff lkg).0 l));
    mono = (mono_ok_iff (get (codes "last_apply_mono") state)).1 w.mono;
  }

module _ (p : Python) (state : Fields) where
  to_Passes : PassesChecks p state → Passes p state
  to_Passes (PassesChecks.no_active e) = no_active e
  to_Passes (PassesChecks.no_lkg {act} a h e) = no_lkg a ((slot_failure-eq-none_iff act).0 h) e
  to_Passes (PassesChecks.lawful {act} {lkg} {pins} a l v w) =
      lawful a l v (LawsPass-IsLawful p state act lkg (items pins) w)

  from_Passes : Passes p state → PassesChecks p state
  from_Passes (no_active e) = PassesChecks.no_active e
  from_Passes (no_lkg {act} a h e) = PassesChecks.no_lkg a ((slot_failure-eq-none_iff act).1 h) e
  from_Passes (lawful {act} {lkg} {pins} a l v w) =
      PassesChecks.lawful a l v (IsLawful-LawsPass p state act lkg (items pins) w)

-- A state has no violation exactly if it has no "active", or an "active" slot and no "lkg", or
-- both slots and pins that obey the laws: two pins at most, all of them slots, an active slot that
-- is present among them, a present "lkg" that is another slot of the same bundle with a lower
-- version, and a last apply of at least -1. A slot says that it is not present, or that it is and
-- has a filled text as its bundle and its digest and an integer as its version.
pub check_state-eq-nil_iff :
    (p : Python) (state : Fields) → (check_state p state ≡ []) ↔ Passes p state
check_state-eq-nil_iff p state =
    let checks = check_state-Passes_iff p state in
    (λ e. to_Passes p state (checks.0 e), λ h. checks.1 (from_Passes p state h))
