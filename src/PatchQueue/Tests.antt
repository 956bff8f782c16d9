-- ===== src/PatchQueue/Tests.antt =====
-- A working tree as a stack of patch files, runs of the applicator on it, and its theorems there.
use mathlib.Core.Path.{subst}
use mathlib.Core.Bool.{false≢true}
use xr_browser.Prelude.{
  Text, ◌≡◌, ◌≢◌, ◌↔◌, All, split, split_from, starts_with, refl, ap, Option, none, some, List, [],
  ◌∷◌, reverse, text_eq, text_eq_refl, codes, if◌then◌else◌,
}
use xr_browser.PatchQueue.Ledger.{is_recorded, put, delete, Lacks}
use xr_browser.PatchQueue.Git.{Applied, changed, failed, Git, IsReversible}
use xr_browser.PatchQueue.Paths.{
  escapes, rstrip_slash, in_root, escaping, outside, check_path_policy,
}
use xr_browser.PatchQueue.Paths.Allowed.{IsAllowed, check_path_policy-eq-nil_iff}
use xr_browser.PatchQueue.Command.{
  Patch, already_applied, applied, revert_failed, Checkout, apply, verify, revert, done, failure,
  apply_files, reverse_files, content_hash, step, loop, finished, run,
}
use xr_browser.PatchQueue.Command.Idempotence.{noted, run_twice}
use xr_browser.PatchQueue.Command.RoundTrip.{Reverts, run_undone}

abbrev pop : Text → List Text → Applied (List Text)
pop pf [] = failed (codes "error")
pop pf (x ∷ t) = if text_eq x pf then changed t else failed (codes "error")

abbrev pop_error : Text → List Text → Option Text
pop_error pf [] = some (codes "error")
pop_error pf (x ∷ t) = if text_eq x pf then none else some (codes "error")

-- A patch goes on top of the stack, and comes off it if it is there.
abbrev stack : Git (List Text)
stack = record {
  check = λ pf t. none;
  check_reverse = pop_error;
  apply = λ pf t. changed (pf ∷ t);
  reverse = pop;
}

changed-injective : (t u : List Text) → changed t ≡ changed u → t ≡ u
changed-injective t u h = cc

stack-IsReversible : IsReversible stack
stack-IsReversible = record {
  undo = λ pf t u h.
      subst (λ v. pop pf v ≡ changed t) (changed-injective (pf ∷ t) u h) (rw text_eq_refl refl);
}

abbrev digest : Text → Text
digest t = t

abbrev pin : Text
pin = codes "f00d"

abbrev first : Patch
first = record { id = codes "p1"; files = codes "a" ∷ codes "b" ∷ [] }

abbrev second : Patch
second = record { id = codes "p2"; files = codes "c" ∷ [] }

abbrev fresh_checkout : Checkout (List Text)
fresh_checkout = record { tree = []; ledger = [] }

abbrev patched : Checkout (List Text)
patched = record {
  tree = codes "c" ∷ codes "b" ∷ codes "a" ∷ [];
  ledger =
      (codes "p1", record { applied_at_rev = pin; content_hash = codes "ab" })
      ∷ (codes "p2", record { applied_at_rev = pin; content_hash = codes "c" })
      ∷ [];
}

patch_run : Unit {0}
unfolding run finished loop step apply_files reverse_files content_hash is_recorded put delete
    text_eq
patch_run = tt

applied_both :
    run stack digest apply pin (first ∷ second ∷ []) fresh_checkout
    ≡ (patched, done (noted stack digest pin applied (first ∷ second ∷ [])))
unfolding patch_run
applied_both = refl

-- In the order of the manifest, a patch that another one lies on does not come off.
stuck_revert :
    run stack digest revert pin (first ∷ second ∷ []) patched
    ≡ (patched, failure (revert_failed (codes "p1") (codes "error")))
unfolding patch_run
stuck_revert = refl

other_id : second.id ≢ first.id
unfolding text_eq
other_id e = false≢true (ap (λ t. text_eq t first.id) e)

run_twice_example :
    (run stack digest apply pin (first ∷ second ∷ []) patched
      ≡ (patched, done (noted stack digest pin already_applied (first ∷ second ∷ []))))
    × (run stack digest verify pin (first ∷ second ∷ []) patched
        ≡ (patched, done (noted stack digest pin applied (first ∷ second ∷ []))))
run_twice_example =
    run_twice stack digest pin (first ∷ second ∷ []) fresh_checkout patched
      (noted stack digest pin applied (first ∷ second ∷ [])) ((other_id, tt), (tt, tt)) applied_both

run_undone_example :
    Reverts stack digest pin stack-IsReversible
      (reverse (first ∷ second ∷ []))
      patched
      fresh_checkout
unfolding Lacks
run_undone_example =
    run_undone stack digest pin stack-IsReversible (first ∷ second ∷ []) fresh_checkout patched
      ((other_id, tt), (tt, tt)) (tt, (tt, tt)) applied_both

policy_run :
    check_path_policy
      (codes "chrome/app/a.cc" ∷ codes "chrome/app/../b" ∷ codes "/x" ∷ codes "net/a.cc" ∷ [])
      (codes "chrome/app/" ∷ [])
    ≡ escaping (codes "chrome/app/../b") ∷ escaping (codes "/x") ∷ outside (codes "net/a.cc") ∷ []
unfolding check_path_policy escapes rstrip_slash in_root text_eq split split_from starts_with
policy_run = refl

check_path_policy-eq-nil_iff_example :
    (check_path_policy (codes "chrome/app/a.cc" ∷ []) (codes "chrome/app/" ∷ []) ≡ [])
    ↔ All (IsAllowed (codes "chrome/app/" ∷ [])) (codes "chrome/app/a.cc" ∷ [])
check_path_policy-eq-nil_iff_example =
    check_path_policy-eq-nil_iff (codes "chrome/app/a.cc" ∷ []) (codes "chrome/app/" ∷ [])
