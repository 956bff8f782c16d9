-- ===== src/PatchQueue/Command/RoundTrip.antt =====
-- Runs of revert after a run of apply, in `cmd` of build/patching/apply.py.
use mathlib.Core.Path.{subst}
use mathlib.Core.List.{reverse-cons}
use xr_browser.Prelude.{
  Text, Bool, true, false, ◌≡◌, ◌≢◌, refl, sym, ap, ◌∙◌, List, [], ◌∷◌, ◌++◌, append-nil,
  append_assoc, reverse, is_empty, All, Bool-cases, inl, inr, ◌⊎◌, Option-cases, arith,
}
use xr_browser.PatchQueue.Ledger.{
  LedgerEntry, Ledger, Lacks, is_recorded, put, delete, is_recorded-put, delete-put, Lacks-put,
}
use xr_browser.PatchQueue.Git.{changed, Git, IsReversible, Applied-cases}
use xr_browser.PatchQueue.Command.{
  Patch, Status, already_applied, recovered, applied, reverted, went, ◌>>=◌, Work, Checkout, apply,
  revert, done, content_hash, apply_files, reverse_files, record_applied, note, step, loop,
  finished, run,
}
use xr_browser.PatchQueue.Command.Idempotence.{
  AreDistinct, noted, went-injective, went-bind, done_finished,
}

module _ {ℓ} {Tree : Type ℓ} (git : Git Tree) (digest : Text → Text) (pin : Text) where
  -- A file was applied afresh, or was found applied.
  first_file :
      (pid pf : Text) (pfs : List Text) (t : Tree) (found : Bool) (r : Tree × Bool)
      → apply_files git digest pid (pf ∷ pfs) t found ≡ went r
      → ((t' : Tree) × (git.apply pf t ≡ changed t')
          × (apply_files git digest pid pfs t' found ≡ went r))
        ⊎ (apply_files git digest pid pfs t true ≡ went r)
  unfolding apply_files
  first_file pid pf pfs t found r h = elim (Option-cases (git.check pf t)) [
    | inl clean ↦ elim (Applied-cases (git.apply pf t)) [
      | inl (t', ran) ↦ inl (t', ran, ground arith)
      | inr (e, ran) ↦ absurd (ground arith)
    ]
    | inr (e, unclean) ↦ elim (Option-cases (git.check_reverse pf t)) [
      | inl old ↦ inr (ground arith)
      | inr (e', new) ↦ absurd (ground arith)
    ]
  ]

  -- Where a file was found applied, the patch counts as recovered.
  found_stays :
      (pid : Text) (pfs : List Text) (t u : Tree) (b : Bool)
      → apply_files git digest pid pfs t true ≡ went (u, b)
      → b ≡ true
  unfolding apply_files
  found_stays pid [] t u b h =
      ap (λ r. r.1) (sym (went-injective git digest pin _ (t, true) (u, b) refl h))
  found_stays pid (pf ∷ pfs) t u b h = elim (first_file pid pf pfs t true (u, b) h) [
    | inl (t', ran, rest) ↦ found_stays pid pfs t' u b rest
    | inr rest ↦ found_stays pid pfs t u b rest
  ]

  reverse_files-append :
      (pid : Text) (xs ys : List Text) (t : Tree)
      → reverse_files git digest pid (xs ++ ys) t
        ≡ (reverse_files git digest pid xs t >>= reverse_files git digest pid ys)
  unfolding reverse_files
  reverse_files-append pid [] ys t = refl
  reverse_files-append pid (x ∷ xs) ys t = elim (Applied-cases (git.reverse x t)) [
    | inl (u, ran) ↦ rw (ran, reverse_files) (reverse_files-append pid xs ys u)
    | inr (e, ran) ↦ rw (ran, reverse_files) refl
  ]

  abbrev entry_of : Patch → LedgerEntry
  entry_of p = record { applied_at_rev = pin; content_hash = content_hash git digest p }

  -- A round that applied its patch afresh.
  record Fresh (p : Patch) (w u : Work Tree) : Type ℓ where
    filled : is_empty p.files ≡ false
    ran : apply_files git digest p.id p.files w.tree false ≡ went (u.tree, false)
    entered : u.applied ≡ put p.id (entry_of p) w.applied

  -- A round notes one status, which is `applied` where the patch was applied afresh.
  record Noted (p : Patch) (w u : Work Tree) : Type ℓ where
    status : Status
    results : u.results ≡ w.results ++ (p.id, status) ∷ []
    fresh : status ≡ applied → Fresh p w u

  recorded-Noted :
      (p : Patch) (w u : Work Tree) (r : Tree × Bool)
      → is_empty p.files ≡ false
      → apply_files git digest p.id p.files w.tree false ≡ went r
      → record_applied git digest pin p w r ≡ u
      → Noted p w u
  recorded-Noted p w u (t, true) filled ran same =
      subst (Noted p w) same (record { status = recovered; results = refl; fresh = λ e. cc })
  recorded-Noted p w u (t, false) filled ran same = subst (Noted p w) same (record {
    status = applied;
    results = refl;
    fresh = λ e. record { filled = filled; ran = ran; entered = refl };
  })

  step-Noted : (p : Patch) (w u : Work Tree) → step git digest apply pin p w ≡ went u → Noted p w u
  unfolding step
  step-Noted p w u h = elim (Bool-cases (is_empty p.files)) [
    | inl e ↦ absurd (ground arith)
    | inr e ↦ elim (Bool-cases (is_recorded p.id (content_hash git digest p) w.applied)) [
      | inl old ↦
          let same : note git digest p.id already_applied w ≡ u = ground arith in
          subst (Noted p w) same
            (record { status = already_applied; results = refl; fresh = λ e. cc })
      | inr new ↦
          let (r, ran, same) =
            went-bind git digest pin (apply_files git digest p.id p.files w.tree false)
              (λ r. went (record_applied git digest pin p w r)) u (ground arith) in
          recorded-Noted p w u r e ran (went-injective git digest pin _ _ u refl same)
    ]
  ]

  -- Every round of the loop applied its patch afresh.
  data AllFresh : List Patch → Work Tree → Work Tree → Type ℓ where
    no_round : {w : Work Tree} → AllFresh [] w w
    round :
        {p : Patch} {ps : List Patch} {w u v : Work Tree}
        → Fresh p w u
        → AllFresh ps u v
        → AllFresh (p ∷ ps) w v

  -- The statuses that a loop adds to the results.
  grows :
      (ps : List Patch) (w v : Work Tree)
      → loop git digest apply pin ps w ≡ went v
      → (rs : List (Text × Status)) × (v.results ≡ w.results ++ rs)
        × (rs ≡ noted git digest pin applied ps → AllFresh ps w v)
  unfolding loop
  grows [] w v h =
      let same = went-injective git digest pin _ w v refl h in
      (
        [],
        ap (λ (u : Work Tree). u.results) (sym same) ∙ sym (append-nil w.results),
        λ e. subst (AllFresh [] w) same no_round,
      )
  grows (p ∷ ps) w v h =
      let (u, here, later) =
        went-bind git digest pin (step git digest apply pin p w) (loop git digest apply pin ps) v
          h in
      let n = step-Noted p w u here in
      let (rs, grown, rest) = grows ps u v later in
      (
        (p.id, n.status) ∷ rs,
        grown ∙ ap (λ r. r ++ rs) n.results ∙ append_assoc w.results ((p.id, n.status) ∷ []) rs,
        λ e. round (n.fresh (cc e)) (rest (cc e)),
      )

  module _ (law : IsReversible git) where
    -- The files of a patch, applied afresh, are undone from the last to the first.
    undone :
        (pid : Text) (pfs : List Text) (t u : Tree)
        → apply_files git digest pid pfs t false ≡ went (u, false)
        → reverse_files git digest pid (reverse pfs) u ≡ went t
    unfolding apply_files reverse_files
    undone pid [] t u h =
        ap (λ (r : Tree × Bool). went r.0)
          (sym (went-injective git digest pin _ (t, false) (u, false) refl h))
    undone pid (pf ∷ pfs) t u h = elim (first_file pid pf pfs t false (u, false) h) [
      | inl (t', ran, rest) ↦ rw reverse-cons (
          reverse_files-append pid (reverse pfs) (pf ∷ []) u
          ∙ ap (λ m. m >>= reverse_files git digest pid (pf ∷ [])) (undone pid pfs t' u rest)
          ∙ rw (law.undo pf t t' ran, reverse_files) refl)
      | inr rest ↦ absurd (cc (found_stays pid pfs t u false rest))
    ]

    -- One patch, reverted right after it was applied.
    reverted_alone :
        (p : Patch) (w u : Work Tree) (rs : List (Text × Status))
        → Fresh p w u
        → Lacks p.id w.applied
        → step git digest revert pin p (record u { results = rs })
          ≡ went (record w { results = rs ++ (p.id, reverted) ∷ [] })
    unfolding step
    reverted_alone p w u rs f lacks =
        let known =
          ap (is_recorded p.id (content_hash git digest p)) f.entered
          ∙ is_recorded-put p.id (entry_of p) w.applied in
        let erased = ap (delete p.id) f.entered ∙ delete-put p.id (entry_of p) w.applied lacks in
        rw (f.filled, known) (rw (undone p.id p.files w.tree u.tree f.ran) (rw erased refl))

    abbrev pub checkout_of : Work Tree → Checkout Tree
    checkout_of w = record { tree = w.tree; ledger = w.applied }

    -- Runs of revert, one for each patch in turn, lead from a checkout to another.
    pub data Reverts : List Patch → Checkout Tree → Checkout Tree → Type ℓ where
      no_run : {c : Checkout Tree} → Reverts [] c c
      one_run :
          {p : Patch} {ps : List Patch} {c d e : Checkout Tree}
          → run git digest revert pin (p ∷ []) c ≡ (d, done ((p.id, reverted) ∷ []))
          → Reverts ps d e
          → Reverts (p ∷ ps) c e

    Reverts-append :
        {ps qs : List Patch} {c d e : Checkout Tree}
        → Reverts ps c d
        → Reverts qs d e
        → Reverts (ps ++ qs) c e
    Reverts-append no_run s = s
    Reverts-append (one_run r t) s = one_run r (Reverts-append t s)

    run_reverted :
        (p : Patch) (w u : Work Tree)
        → Fresh p w u
        → Lacks p.id w.applied
        → run git digest revert pin (p ∷ []) (checkout_of u)
          ≡ (checkout_of w, done ((p.id, reverted) ∷ []))
    unfolding run loop finished
    run_reverted p w u f lacks = rw (reverted_alone p w u [] f lacks) refl

    -- None of the patches is in the ledger.
    abbrev pub AreNew : List Patch → Ledger → Type 0
    AreNew ps l = All (λ (p : Patch). Lacks p.id l) ps

    AreNew-put :
        (ps : List Patch) (pid : Text) (e : LedgerEntry) (l : Ledger)
        → All (λ (q : Patch). q.id ≢ pid) ps
        → AreNew ps l
        → AreNew ps (put pid e l)
    AreNew-put [] pid e l d n = tt
    AreNew-put (q ∷ ps) pid e l d n =
        (Lacks-put pid q.id e l (λ s. d.0 (sym s)) n.0, AreNew-put ps pid e l d.1 n.1)

    reverts :
        (ps : List Patch) (w v : Work Tree)
        → AllFresh ps w v
        → AreDistinct ps
        → AreNew ps w.applied
        → Reverts (reverse ps) (checkout_of v) (checkout_of w)
    reverts _ _ _ no_round d n = no_run
    reverts (p ∷ ps) w v (round {u} f fs) d n =
        let later : AreNew ps u.applied =
          rw f.entered (AreNew-put ps p.id (entry_of p) w.applied d.0 n.1) in
        rw reverse-cons
          (Reverts-append (reverts ps u v fs d.1 later) (one_run (run_reverted p w u f n.0) no_run))

    done_results :
        (old : Ledger) (v : Work Tree) (e : Checkout Tree) (rs : List (Text × Status))
        → finished git digest old (went v) ≡ (e, done rs)
        → v.results ≡ rs
    unfolding finished
    done_results old v e rs h = cc

    -- Where git undoes a patch that it has just applied: after a run of apply over patches with
    -- distinct ids that are not in the ledger, which reports each as applied, runs of revert for one
    -- patch each, from the last patch to the first, restore the working tree and the ledger, and
    -- each reports its patch as reverted.
    pub run_undone :
        (ps : List Patch) (c e : Checkout Tree)
        → AreDistinct ps
        → AreNew ps c.ledger
        → run git digest apply pin ps c ≡ (e, done (noted git digest pin applied ps))
        → Reverts (reverse ps) e c
    unfolding run
    run_undone ps c e d n h =
        let start : Work Tree = record { tree = c.tree; applied = c.ledger; results = [] } in
        let (v, ran, same) =
          done_finished git digest pin c.ledger (loop git digest apply pin ps start) e
            (noted git digest pin applied ps) h in
        let (rs, grown, fresh) = grows ps start v ran in
        let shown =
          done_results c.ledger v e (noted git digest pin applied ps)
            (ap (finished git digest c.ledger) (sym ran) ∙ h) in
        rw same (reverts ps start v (fresh (sym grown ∙ shown)) d n)
