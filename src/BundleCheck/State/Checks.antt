-- ===== src/BundleCheck/State/Checks.antt =====
-- The apply states that `check_state` passes, by the tests that it makes.
use xr_browser.Prelude.{
  flag, flag-eq-nil_iff, String, ℕ, ◌+◌, ◌≤◌, ◌≡◌, ◌↔◌, refl, sym, true, false, not, ◌&&◌, Option,
  none, some, List, [], ◌∷◌, ◌++◌, All, Bool-cases, Option-cases, inl, inr, any, append-eq-nil,
  length, ◌⊎◌, ◌∙◌, ltb, codes, arith,
}
use xr_browser.Json.{Json, arr, Items, Fields, items, get}
use xr_browser.ListPackage.{Python, or_null}
use xr_browser.BundleCheck.State.{
  bad_slot, pins_not_slots, slot_failure, StateFailure, ends, reads, slot_at, pin_failure, pins_at,
  is_present, part, int_ge, mono_ok, lkg_failures, check_state, too_many_pins, pins_missing_active,
  bad_mono,
}

abbrev pub SlotPasses : Json → Type 0
SlotPasses s = slot_failure s ≡ none

-- The laws of a state with two slots and pins.
pub record LawsPass (p : Python) (state : Fields) (act lkg : Json) (pins : List Json) : Type 0 where
  pub active_slot : SlotPasses act
  pub lkg_slot : SlotPasses lkg
  pub pin_slots : All SlotPasses pins
  pub few : length pins ≤ 2
  pub pinned : is_present act ≡ true → any (p.same act) pins ≡ true
  pub apart : is_present act ≡ true → is_present lkg ≡ true → p.same lkg act ≡ false
  pub older :
      is_present act ≡ true
      → is_present lkg ≡ true
      → int_ge (part "version" lkg) (part "version" act) ≡ false
  pub one_bundle :
      is_present act ≡ true
      → is_present lkg ≡ true
      → p.same (part "bundle_id" lkg) (part "bundle_id" act) ≡ true
  pub mono : mono_ok (or_null (get (codes "last_apply_mono") state)) ≡ true

-- The states that have no violation.
pub data PassesChecks (p : Python) (state : Fields) : Type 0 where
  no_active : get (codes "active") state ≡ none → PassesChecks p state
  no_lkg :
      {act : Json}
      → get (codes "active") state ≡ some act
      → SlotPasses act
      → get (codes "lkg") state ≡ none
      → PassesChecks p state
  lawful :
      {act lkg : Json} {pins : Items}
      → get (codes "active") state ≡ some act
      → get (codes "lkg") state ≡ some lkg
      → get (codes "pins") state ≡ some (arr pins)
      → LawsPass p state act lkg (items pins)
      → PassesChecks p state

pin_failure-eq-none_iff : (i : ℕ) (ss : List Json) → (pin_failure i ss ≡ none) ↔ All SlotPasses ss
unfolding pin_failure
pin_failure-eq-none_iff i [] = (λ e. tt, λ a. refl)
pin_failure-eq-none_iff i (s ∷ ss) = (
  λ e. elim (Option-cases (slot_failure s)) [
    | inl fine ↦ (fine, (pin_failure-eq-none_iff (i + 1) ss).0 (ground arith))
    | inr (b, bad) ↦ absurd (ground arith)
  ],
  λ a. rw (a.0, pin_failure) ((pin_failure-eq-none_iff (i + 1) ss).1 a.1),
)

-- The two slots, read or not.
slot_at-none :
    (place : String) (state : Fields)
    → get (codes place) state ≡ none
    → slot_at place state ≡ ends []
unfolding slot_at
slot_at-none place state e = rw (e, slot_at) refl

slot_at-some :
    (place : String) (state : Fields) (s : Json)
    → get (codes place) state ≡ some s
    → SlotPasses s
    → slot_at place state ≡ reads s
unfolding slot_at
slot_at-some place state s e h = rw (e, h, slot_at) refl

slot_at-cases :
    (place : String) (state : Fields)
    → (get (codes place) state ≡ none)
      ⊎ ((f : StateFailure) × (slot_at place state ≡ ends (f ∷ [])))
      ⊎ ((s : Json) × (get (codes place) state ≡ some s) × SlotPasses s)
unfolding slot_at
slot_at-cases place state = elim (Option-cases (get (codes place) state)) [
  | inl missing ↦ inl missing
  | inr (s, e) ↦ elim (Option-cases (slot_failure s)) [
    | inl fine ↦ inr (inr (s, e, fine))
    | inr (b, bad) ↦ inr (inl (bad_slot place b, rw (e, bad, slot_at) refl))
  ]
]

pins_at_arr :
    (state : Fields) (vs : Items)
    → get (codes "pins") state ≡ some (arr vs)
    → All SlotPasses (items vs)
    → pins_at (get (codes "pins") state) ≡ reads (items vs)
unfolding pins_at
pins_at_arr state vs e h = rw (e, (pin_failure-eq-none_iff 0 (items vs)).1 h, pins_at) refl

pins_at-cases :
    (o : Option Json)
    → ((f : StateFailure) × (fs : List StateFailure) × (pins_at o ≡ ends (f ∷ fs)))
      ⊎ ((vs : Items) × (o ≡ some (arr vs)) × All SlotPasses (items vs))
unfolding pins_at
pins_at-cases (some (arr vs)) = elim (Option-cases (pin_failure 0 (items vs))) [
  | inl fine ↦ inr (vs, refl, (pin_failure-eq-none_iff 0 (items vs)).0 fine)
  | inr (f, bad) ↦ inl (f, pins_not_slots ∷ [], rw (bad, pins_at) refl)
]
pins_at-cases _ = inl (pins_not_slots, [], refl)

-- The checks of two slots and pins that have been read.
abbrev law_failures : Python → Fields → Json → Json → List Json → List StateFailure
law_failures p state act lkg pins =
    flag (ltb 2 (length pins)) too_many_pins
    ++ (flag (is_present act && not (any (p.same act) pins)) pins_missing_active
        ++ (lkg_failures p act lkg
            ++ flag (not (mono_ok (or_null (get (codes "last_apply_mono") state)))) bad_mono))

check_state_read :
    (p : Python) (state : Fields) (act lkg : Json) (pins : Items)
    → get (codes "active") state ≡ some act
    → get (codes "lkg") state ≡ some lkg
    → get (codes "pins") state ≡ some (arr pins)
    → SlotPasses act
    → SlotPasses lkg
    → All SlotPasses (items pins)
    → check_state p state ≡ law_failures p state act lkg (items pins)
unfolding check_state
check_state_read p state act lkg pins a l e ha hl hp =
    rw
      (
        slot_at-some "active" state act a ha,
        slot_at-some "lkg" state lkg l hl,
        pins_at_arr state pins e hp,
      )
      refl

lkg_failures-eq-nil_iff :
    (p : Python) (act lkg : Json)
    → (lkg_failures p act lkg ≡ []) ↔ (
        is_present act ≡ true
        → is_present lkg ≡ true
        → (p.same lkg act ≡ false)
          × (int_ge (part "version" lkg) (part "version" act) ≡ false)
          × (p.same (part "bundle_id" lkg) (part "bundle_id" act) ≡ true))
unfolding lkg_failures
lkg_failures-eq-nil_iff p act lkg = (
  λ e a l. (ground arith, ground arith, ground arith),
  λ h. elim (Bool-cases (is_present act)) [
    | inr gone ↦ rw (gone, lkg_failures) refl
    | inl there ↦ elim (Bool-cases (is_present lkg)) [
      | inr gone ↦ rw (there, gone, lkg_failures) refl
      | inl held ↦
          let (apart, older, one) = h there held in
          rw (there, held, apart, older, one, lkg_failures) refl
    ]
  ],
)

-- The laws, where the two slots and the pins have been read.
law_failures-eq-nil_iff :
    (p : Python) (state : Fields) (act lkg : Json) (pins : List Json)
    → SlotPasses act
    → SlotPasses lkg
    → All SlotPasses pins
    → (law_failures p state act lkg pins ≡ []) ↔ LawsPass p state act lkg pins
law_failures-eq-nil_iff p state act lkg pins ha hl hp = (
  λ e.
      let (few, rest) = append-eq-nil (flag (ltb 2 (length pins)) too_many_pins) _ e in
      let (pinned, rest2) =
        append-eq-nil (flag (is_present act && not (any (p.same act) pins)) pins_missing_active) _
          rest in
      let (lkg_law, mono) = append-eq-nil (lkg_failures p act lkg) _ rest2 in
      let law = (lkg_failures-eq-nil_iff p act lkg).0 lkg_law in
      let one = (flag-eq-nil_iff _ too_many_pins).0 few in
      let two = (flag-eq-nil_iff _ pins_missing_active).0 pinned in
      let three = (flag-eq-nil_iff _ bad_mono).0 mono in
      record {
        active_slot = ha;
        lkg_slot = hl;
        pin_slots = hp;
        few = ground arith;
        pinned = λ there. ground arith;
        apart = λ a l. (law a l).0;
        older = λ a l. (law a l).1;
        one_bundle = λ a l. (law a l).2;
        mono = ground arith;
      },
  λ w.
      let few : ltb 2 (length pins) ≡ false = ground (arith, w.few) in
      let pinned : (is_present act && not (any (p.same act) pins)) ≡ false =
        ground (arith, w.pinned) in
      let law =
        (lkg_failures-eq-nil_iff p act lkg).1
          (λ a l. (w.apart a l, w.older a l, w.one_bundle a l)) in
      rw (few, pinned, law, w.mono) refl,
)

check_state-PassesChecks :
    (p : Python) (state : Fields) → check_state p state ≡ [] → PassesChecks p state
unfolding check_state
check_state-PassesChecks p state e = elim (slot_at-cases "active" state) [
  | inl missing ↦ no_active missing
  | inr (inl (f, bad)) ↦ absurd (let stop : f ∷ [] ≡ [] = rw (bad) at e in cc)
  | inr (inr (act, a, ha)) ↦ elim (slot_at-cases "lkg" state) [
    | inl missing ↦ no_lkg a ha missing
    | inr (inl (f, bad)) ↦
        absurd (let stop : f ∷ [] ≡ [] = rw (slot_at-some "active" state act a ha, bad) at e in cc)
    | inr (inr (lkg, l, hl)) ↦ elim (pins_at-cases (get (codes "pins") state)) [
      | inl (f, fs, bad) ↦ absurd (
          let stop : f ∷ fs ≡ [] =
            rw (slot_at-some "active" state act a ha, slot_at-some "lkg" state lkg l hl, bad) at
              e in
          cc)
      | inr (vs, v, hv) ↦ lawful a l v (
          (law_failures-eq-nil_iff p state act lkg (items vs) ha hl hv).0
            (sym (check_state_read p state act lkg vs a l v ha hl hv) ∙ e))
    ]
  ]
]

PassesChecks-check_state :
    (p : Python) (state : Fields) → PassesChecks p state → check_state p state ≡ []
unfolding check_state
PassesChecks-check_state p state (no_active missing) = rw (slot_at-none "active" state missing) refl
PassesChecks-check_state p state (no_lkg {act} a ha missing) =
    rw (slot_at-some "active" state act a ha, slot_at-none "lkg" state missing) refl
PassesChecks-check_state p state (lawful {act} {lkg} {pins} a l v w) =
    check_state_read p state act lkg pins a l v w.active_slot w.lkg_slot w.pin_slots
    ∙ (law_failures-eq-nil_iff p state act lkg (items pins) w.active_slot w.lkg_slot w.pin_slots).1
        w

pub check_state-Passes_iff :
    (p : Python) (state : Fields) → (check_state p state ≡ []) ↔ PassesChecks p state
check_state-Passes_iff p state =
    (check_state-PassesChecks p state, PassesChecks-check_state p state)
