-- ===== src/PatchQueue/Command/Idempotence.antt =====
-- Runs of apply and verify after a run of apply, in `cmd` of build/patching/apply.py.
use mathlib.Core.Path.{subst}
use xr_browser.Prelude.{
  Text, Bool, true, false, ◌≡◌, ◌≢◌, refl, sym, ap, ◌∙◌, List, [], ◌∷◌, ◌++◌, append_assoc,
  append-nil, is_empty, map, All, Bool-cases, inl, inr, arith,
}
use xr_browser.PatchQueue.Ledger.{
  LedgerEntry, Ledger, is_recorded, is_recorded-put, is_recorded-put_other,
}
use xr_browser.PatchQueue.Git.{Git}
use xr_browser.PatchQueue.Command.{
  Patch, Status, already_applied, applied, Progress, went, stopped, ◌>>=◌, Work, Checkout, apply,
  verify, done, content_hash, apply_files, record_applied, note, step, loop, finished, run,
}

-- The patches have distinct ids.
abbrev pub AreDistinct : List Patch → Type 0
AreDistinct [] = Unit
AreDistinct (p ∷ ps) = All (λ (q : Patch). q.id ≢ p.id) ps × AreDistinct ps

module _ {ℓ} {Tree : Type ℓ} (git : Git Tree) (digest : Text → Text) (pin : Text) where
  -- The ledger has the patch with its present content.
  IsApplied : Ledger → Patch → Type 0
  IsApplied l p =
      (is_empty p.files ≡ false) × (is_recorded p.id (content_hash git digest p) l ≡ true)

  pub went-injective :
      {A : Type ℓ} (m : Progress Tree A) (a b : A) → m ≡ went a → m ≡ went b → a ≡ b
  went-injective m a b h k = cc

  pub went-bind :
      {A : Type ℓ} (m : Progress Tree A) (f : A → Progress Tree (Work Tree)) (v : Work Tree)
      → (m >>= f) ≡ went v
      → (a : A) × (m ≡ went a) × (f a ≡ went v)
  went-bind (went a) f v h = (a, refl, h)
  went-bind (stopped t x) f v h = cc

  -- One round of apply records its patch and keeps what the ledger says of the others.
  record Recorded (p : Patch) (w v : Work Tree) : Type ℓ where
    here : IsApplied v.applied p
    others : (q : Patch) → p.id ≢ q.id → IsApplied w.applied q → IsApplied v.applied q

  put-Recorded :
      (p : Patch) (w : Work Tree) (r : Tree × Bool)
      → is_empty p.files ≡ false
      → Recorded p w (record_applied git digest pin p w r)
  unfolding IsApplied
  put-Recorded p w (t, found) filled =
      let e : LedgerEntry = record {
        applied_at_rev = pin;
        content_hash = content_hash git digest p;
      } in
      record {
        here = (filled, is_recorded-put p.id e w.applied);
        others = λ q k h. (
          h.0,
          is_recorded-put_other p.id q.id (content_hash git digest q) e w.applied (λ s. k (sym s))
              ∙ h.1,
        );
      }

  applied-Recorded :
      (p : Patch) (w v : Work Tree)
      → is_empty p.files ≡ false
      → (apply_files git digest p.id p.files w.tree false
          >>= (λ r. went (record_applied git digest pin p w r)))
        ≡ went v
      → Recorded p w v
  applied-Recorded p w v filled h =
      let (r, ran, same) =
        went-bind (apply_files git digest p.id p.files w.tree false)
          (λ r. went (record_applied git digest pin p w r)) v h in
      subst (Recorded p w) (went-injective _ _ v refl same) (put-Recorded p w r filled)

  step-Recorded :
      (p : Patch) (w v : Work Tree) → step git digest apply pin p w ≡ went v → Recorded p w v
  unfolding step IsApplied
  step-Recorded p w v h = elim (Bool-cases (is_empty p.files)) [
    | inl e ↦ absurd (ground arith)
    | inr e ↦ elim (Bool-cases (is_recorded p.id (content_hash git digest p) w.applied)) [
      | inl old ↦
          let same : note git digest p.id already_applied w ≡ v = ground arith in
          subst (Recorded p w) same (record { here = (e, old); others = λ q k i. i })
      | inr new ↦ applied-Recorded p w v e (ground arith)
    ]
  ]

  AllApplied : Ledger → List Patch → Type 0
  AllApplied l ps = All (IsApplied l) ps

  loop-others :
      (ps : List Patch) (w v : Work Tree) (q : Patch)
      → loop git digest apply pin ps w ≡ went v
      → All (λ (p : Patch). p.id ≢ q.id) ps
      → IsApplied w.applied q
      → IsApplied v.applied q
  unfolding loop
  loop-others [] w v q h k i =
      subst (λ (u : Work Tree). IsApplied u.applied q) (went-injective _ w v refl h) i
  loop-others (p ∷ ps) w v q h k i =
      let (u, here, later) =
        went-bind (step git digest apply pin p w) (loop git digest apply pin ps) v h in
      loop-others ps u v q later k.1 ((step-Recorded p w u here).others q k.0 i)

  loop-AllApplied :
      (ps : List Patch) (w v : Work Tree)
      → AreDistinct ps
      → loop git digest apply pin ps w ≡ went v
      → AllApplied v.applied ps
  unfolding loop AllApplied
  loop-AllApplied [] w v d h = tt
  loop-AllApplied (p ∷ ps) w v d h =
      let (u, here, later) =
        went-bind (step git digest apply pin p w) (loop git digest apply pin ps) v h in
      (
        loop-others ps u v p later d.0 ((step-Recorded p w u here).here),
        loop-AllApplied ps u v d.1 later,
      )

  -- A run that finds every patch applied notes it, and changes neither the tree nor the ledger.
  abbrev pub noted : Status → List Patch → List (Text × Status)
  noted s ps = map (λ (p : Patch). (p.id, s)) ps

  loop_again :
      (ps : List Patch) (w : Work Tree)
      → AllApplied w.applied ps
      → loop git digest apply pin ps w
        ≡ went (record w { results = w.results ++ noted already_applied ps })
  unfolding loop step AllApplied IsApplied
  loop_again [] w h = rw append-nil refl
  loop_again (p ∷ ps) w h =
      rw (h.0.0, h.0.1)
        (loop_again ps (note git digest p.id already_applied w) h.1
          ∙ ap (λ r. went (record w { results = r })) (append_assoc w.results _ _))

  loop_verify :
      (ps : List Patch) (w : Work Tree)
      → AllApplied w.applied ps
      → loop git digest verify pin ps w
        ≡ went (record w { results = w.results ++ noted applied ps })
  unfolding loop step AllApplied IsApplied
  loop_verify [] w h = rw append-nil refl
  loop_verify (p ∷ ps) w h =
      rw (h.0.0, h.0.1)
        (loop_verify ps (note git digest p.id applied w) h.1
          ∙ ap (λ r. went (record w { results = r })) (append_assoc w.results _ _))

  pub done_finished :
      (old : Ledger) (m : Progress Tree (Work Tree)) (e : Checkout Tree) (rs : List (Text × Status))
      → finished git digest old m ≡ (e, done rs)
      → (v : Work Tree) × (m ≡ went v) × (e ≡ record { tree = v.tree; ledger = v.applied })
  unfolding finished
  done_finished old (went v) e rs h = (v, refl, cc)
  done_finished old (stopped t x) e rs h = cc

  -- After a run of apply over patches with distinct ids that ends well, a second run notes every
  -- patch as applied already and leaves the working tree and the ledger as they are, and verify
  -- reports every patch as applied.
  pub run_twice :
      (ps : List Patch) (c e : Checkout Tree) (rs : List (Text × Status))
      → AreDistinct ps
      → run git digest apply pin ps c ≡ (e, done rs)
      → (run git digest apply pin ps e ≡ (e, done (noted already_applied ps)))
        × (run git digest verify pin ps e ≡ (e, done (noted applied ps)))
  unfolding run finished
  run_twice ps c e rs d h =
      let start : Work Tree = record { tree = c.tree; applied = c.ledger; results = [] } in
      let (v, ran, same) = done_finished c.ledger (loop git digest apply pin ps start) e rs h in
      let all = loop-AllApplied ps start v d ran in
      let again : Work Tree = record { tree = v.tree; applied = v.applied; results = [] } in
      rw same (rw (loop_again ps again all, loop_verify ps again all) (refl, refl))
