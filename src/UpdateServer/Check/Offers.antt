-- ===== src/UpdateServer/Check/Offers.antt =====
-- The offers of a channel's head in `handle`, and how they change with the ramp.
use xr_browser.Prelude.{
  ℕ, Text, true, false, ◌≤◌, ◌<◌, ◌≡◌, refl, sym, ap, ◌∙◌, Option, none, some, arith, leb,
}
use xr_browser.Json.{Json}
use xr_browser.UpdateServer.Answer.{ok}
use xr_browser.UpdateServer.Platform.{Platform}
use xr_browser.UpdateServer.Version.{Parsed, Version, version_lt, parse_version}
use xr_browser.UpdateServer.Spec.{Channel, Head, Spec}
use xr_browser.UpdateServer.Check.{
  offer, against, against_head, with_current, current_version, shown_version, is_revoked,
  update_check,
}

module _ (p : Platform) (spec : Spec) where
  -- Why the head is offered.
  pub record Offers (channel : Channel) (bucket : ℕ) (epoch : Option Text) (rawv : Option Json)
      (head : Head) : Type 0 where
    pub served : spec.served channel ≡ true
    pub unpaused : spec.paused channel ≡ false
    pub valid_epoch : is_revoked p spec epoch ≡ false
    pub in_ramp : bucket < spec.ramp_percent channel
    pub listed : spec.head channel ≡ some head
    pub current : Version
    pub newest : Version
    pub current_parsed : current_version p spec rawv ≡ Parsed.value current
    pub newest_parsed : parse_version p head.version ≡ Parsed.value newest
    pub newer : version_lt current newest ≡ true

  module _ (channel : Channel) (bucket : ℕ) (epoch : Option Text) (rawv : Option Json)
      (head : Head) where
    offered :
        Offers channel bucket epoch rawv head
        → update_check p spec channel bucket epoch rawv ≡ ok (offer head)
    unfolding update_check with_current against_head against
    offered o =
        let out : leb (spec.ramp_percent channel) bucket ≡ false = grind (arith, o.in_ramp) in
        rw (o.served, o.unpaused, o.valid_epoch, out)
          (rw (o.current_parsed, with_current)
            (rw (o.listed, against_head) (rw (o.newest_parsed, against) (rw o.newer refl))))

    Parsed-value :
        (cur : Parsed Version) (shown : Option Json)
        → with_current p spec shown channel cur ≡ ok (offer head)
        → (v : Version) × (cur ≡ Parsed.value v)
          × (against_head p spec v (spec.head channel) ≡ ok (offer head))
    unfolding with_current
    Parsed-value (Parsed.value v) shown h = (v, refl, h)
    Parsed-value Parsed.refused shown h = cc
    Parsed-value Parsed.raised shown h = cc

    newer_head :
        (cur : Version) (x : Head) (hv : Parsed Version)
        → against p spec cur x hv ≡ ok (offer head)
        → (v : Version) × (hv ≡ Parsed.value v) × (version_lt cur v ≡ true) × (x ≡ head)
    unfolding against
    newer_head cur x (Parsed.value v) h = (v, refl, ground arith, ground arith)
    newer_head cur x Parsed.refused h = cc
    newer_head cur x Parsed.raised h = cc

    listed_head :
        (cur : Version) (found : Option Head)
        → against_head p spec cur found ≡ ok (offer head)
        → (found ≡ some head)
          × (v : Version) × (parse_version p head.version ≡ Parsed.value v)
          × (version_lt cur v ≡ true)
    unfolding against_head
    listed_head cur none h = cc
    listed_head cur (some x) h =
        let (v, parsed, newer, same) = newer_head cur x (parse_version p x.version) h in
        (ap some same, v, ap (λ (e : Head). parse_version p e.version) (sym same) ∙ parsed, newer)

    reasons :
        update_check p spec channel bucket epoch rawv ≡ ok (offer head)
        → Offers channel bucket epoch rawv head
    unfolding update_check
    reasons h =
        let (cur, cur_ok, h1) =
          Parsed-value (current_version p spec rawv) (shown_version p spec rawv) (ground arith) in
        let (listed, newest, newest_ok, newer) = listed_head cur (spec.head channel) h1 in
        record {
          served = ground arith;
          unpaused = ground arith;
          valid_epoch = ground arith;
          in_ramp = ground arith;
          listed = listed;
          current = cur;
          newest = newest;
          current_parsed = cur_ok;
          newest_parsed = newest_ok;
          newer = newer;
        }

-- A spec whose ramps are wider, and that is the same otherwise.
abbrev pub widened : Spec → (Channel → ℕ) → Spec
widened spec ramp = record spec { ramp_percent = ramp }

-- A client that is offered a head is offered it in every lower bucket and under every wider ramp.
pub offer_monotone :
    (p : Platform) (spec : Spec) (ramp : Channel → ℕ) (channel : Channel) (b b' : ℕ)
    (epoch : Option Text) (rawv : Option Json) (head : Head)
    → b' ≤ b
    → spec.ramp_percent channel ≤ ramp channel
    → update_check p spec channel b epoch rawv ≡ ok (offer head)
    → update_check p (widened spec ramp) channel b' epoch rawv ≡ ok (offer head)
offer_monotone p spec ramp channel b b' epoch rawv head lower wider h =
    let o = reasons p spec channel b epoch rawv head h in
    offered p (widened spec ramp) channel b' epoch rawv head (record {
      served = o.served;
      unpaused = o.unpaused;
      valid_epoch = unfold is_revoked in o.valid_epoch;
      in_ramp = omega (arith, o.in_ramp);
      listed = o.listed;
      current = o.current;
      newest = o.newest;
      current_parsed = unfold current_version in o.current_parsed;
      newest_parsed = o.newest_parsed;
      newer = o.newer;
    })
