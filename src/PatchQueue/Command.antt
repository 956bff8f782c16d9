-- ===== src/PatchQueue/Command.antt =====
-- `cmd` of build/patching/apply.py for apply, verify and revert: the loop over the selected patches,
-- the working tree and the ledger file.
pub mod Idempotence
pub mod RoundTrip
use xr_browser.Prelude.{
  Text, Bool, true, false, Option, none, some, List, [], ◌∷◌, ◌++◌, is_empty, filter, reverse,
  text_eq, not, if◌then◌else◌,
}
use xr_browser.PatchQueue.Ledger.{LedgerEntry, Ledger, is_recorded, put, delete}
use xr_browser.PatchQueue.Git.{Applied, changed, failed, Git}

-- A row of the manifest, with the contents of its directory's patch files in the order of their
-- names.
pub record Patch : Type 0 where
  pub id : Text
  pub files : List Text

pub data Status : Type 0 where
  already_applied recovered applied not_applied skipped reverted : Status

-- Why a run ends early: the patch and git's error text, of which the source shows the last 2000
-- characters, or a ToolError.
pub data Failure : Type 0 where
  unclean : Text → Text → Failure
  apply_failed : Text → Text → Failure
  revert_failed : Text → Text → Failure
  no_patch_files : Text → Failure
  unknown_id : Text → Failure
  pin_missing : Failure
  lint_failed : List Text → Failure
  wrong_checkout : Text → Failure

-- A piece of a run goes on, or stops and leaves the working tree behind.
pub data Progress {ℓ κ} (Tree : Type ℓ) (A : Type κ) : Type (ℓ ⊔ κ) where
  went : A → Progress Tree A
  stopped : Tree → Failure → Progress Tree A

infixl 5 ◌>>=◌
abbrev pub ◌>>=◌ {ℓ κ μ} :
    {Tree : Type ℓ} {A : Type κ} {B : Type μ}
    → Progress Tree A
    → (A → Progress Tree B)
    → Progress Tree B
went a >>= f = f a
stopped t x >>= f = stopped t x

-- The variables of the loop.
pub record Work {ℓ} (Tree : Type ℓ) : Type ℓ where
  pub tree : Tree
  pub applied : Ledger
  pub results : List (Text × Status)

-- The checkout: the working tree and the ledger file; a missing file is an empty ledger.
pub record Checkout {ℓ} (Tree : Type ℓ) : Type ℓ where
  pub tree : Tree
  pub ledger : Ledger

pub data Verb : Type 0 where
  apply verify revert : Verb

pub data Exit : Type 0 where
  done : List (Text × Status) → Exit
  failure : Failure → Exit

-- b"".join(files)
concat : List Text → Text
concat [] = []
concat (f ∷ fs) = f ++ concat fs

module _ {ℓ} {Tree : Type ℓ} (git : Git Tree) (digest : Text → Text) where
  -- The files of one patch: the tree, and whether one of them was found applied.
  unfoldable pub apply_files : Text → List Text → Tree → Bool → Progress Tree (Tree × Bool)
  apply_files pid [] t found = went (t, found)
  apply_files pid (pf ∷ pfs) t found = elim (git.check pf t) [
    | none ↦ elim (git.apply pf t) [
      | changed u ↦ apply_files pid pfs u found
      | failed e ↦ stopped t (apply_failed pid e)
    ]
    | some e ↦ elim (git.check_reverse pf t) [
      | none ↦ apply_files pid pfs t true
      | some _ ↦ stopped t (unclean pid e)
    ]
  ]

  unfoldable pub reverse_files : Text → List Text → Tree → Progress Tree Tree
  reverse_files pid [] t = went t
  reverse_files pid (pf ∷ pfs) t = elim (git.reverse pf t) [
    | changed u ↦ reverse_files pid pfs u
    | failed e ↦ stopped t (revert_failed pid e)
  ]

  abbrev pub note : Text → Status → Work Tree → Work Tree
  note pid s w = record w { results = w.results ++ (pid, s) ∷ [] }

  -- content_hash(patchdir), where there are patch files
  unfoldable pub content_hash : Patch → Text
  unfolding concat
  content_hash p = digest (concat p.files)

  -- After the files of a patch: the ledger's new entry.
  abbrev pub record_applied : Text → Patch → Work Tree → Tree × Bool → Work Tree
  record_applied pin p w (t, found) = record {
    tree = t;
    applied = put p.id (record { applied_at_rev = pin; content_hash = content_hash p }) w.applied;
    results = w.results ++ (p.id, if found then recovered else applied) ∷ [];
  }

  abbrev pub record_reverted : Patch → Work Tree → Tree → Work Tree
  record_reverted p w t = record {
    tree = t;
    applied = delete p.id w.applied;
    results = w.results ++ (p.id, reverted) ∷ [];
  }

  -- The body of the loop.
  unfoldable pub step : Verb → Text → Patch → Work Tree → Progress Tree (Work Tree)
  step verb pin p w = if is_empty p.files then stopped w.tree (no_patch_files p.id) else elim verb [
    | apply ↦
        if is_recorded p.id (content_hash p) w.applied
        then went (note p.id already_applied w)
        else apply_files p.id p.files w.tree false >>= (λ r. went (record_applied pin p w r))
    | verify ↦
        went (
          note p.id (if is_recorded p.id (content_hash p) w.applied then applied else not_applied)
            w)
    | revert ↦
        if is_recorded p.id (content_hash p) w.applied
        then reverse_files p.id (reverse p.files) w.tree >>= (λ t. went (record_reverted p w t))
        else went (note p.id skipped w)
  ]

  unfoldable pub loop : Verb → Text → List Patch → Work Tree → Progress Tree (Work Tree)
  loop verb pin [] w = went w
  loop verb pin (p ∷ ps) w = step verb pin p w >>= loop verb pin ps

  -- An early end writes no ledger.
  unfoldable pub finished : Ledger → Progress Tree (Work Tree) → Checkout Tree × Exit
  finished old (went w) = (record { tree = w.tree; ledger = w.applied }, done w.results)
  finished old (stopped t x) = (record { tree = t; ledger = old }, failure x)

  -- The loop over patches that are selected already.
  unfoldable pub run : Verb → Text → List Patch → Checkout Tree → Checkout Tree × Exit
  run verb pin ps c =
      finished c.ledger
        (loop verb pin ps (record { tree = c.tree; applied = c.ledger; results = [] }))

  -- select_patches(manifest, only_id)
  unfoldable pub select_patches : Option Text → List Patch → Option (List Patch)
  select_patches none ps = some ps
  select_patches (some only) ps =
      if is_empty only
      then some ps
      else let chosen = filter (λ (p : Patch). text_eq p.id only) ps in
        if is_empty chosen then none else some chosen

  selected : Verb → Text → Option Text → Option (List Patch) → Checkout Tree → Checkout Tree × Exit
  selected verb pin only none c = (c, failure (unknown_id (elim only [ none ↦ [] | some i ↦ i ])))
  selected verb pin only (some ps) c = run verb pin ps c

  -- The whole command: `fails` is what the lint found, `checkout_error` what `verify_checkout` raises.
  unfoldable pub cmd :
      Verb
      → List Text
      → Text
      → Option Text
      → Option Text
      → List Patch
      → Checkout Tree
      → Checkout Tree × Exit
  unfolding selected
  cmd verb fails pin checkout_error only ps c =
      if not (is_empty fails)
      then (c, failure (lint_failed fails))
      else if is_empty pin
      then (c, failure pin_missing)
      else elim checkout_error [
        | some e ↦ (c, failure (wrong_checkout e))
        | none ↦ selected verb pin only (select_patches only ps) c
      ]
