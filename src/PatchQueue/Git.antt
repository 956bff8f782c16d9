-- ===== src/PatchQueue/Git.antt =====
-- `git apply` as build/patching/apply.py calls it, and what its manual promises.
use xr_browser.Prelude.{Text, ◌≡◌, ◌⊎◌, inl, inr, refl, Option}

-- What a changing call leaves: the working tree, or git's error text.
pub data Applied {ℓ} (Tree : Type ℓ) : Type ℓ where
  changed : Tree → Applied Tree
  failed : Text → Applied Tree

-- The four calls, each on the content of one patch file; `none` is exit code 0. A failing call
-- leaves the working tree as it was.
pub record Git {ℓ} (Tree : Type ℓ) : Type ℓ where
  -- git apply --check
  pub check : Text → Tree → Option Text
  -- git apply --reverse --check
  pub check_reverse : Text → Tree → Option Text
  -- git apply
  pub apply : Text → Tree → Applied Tree
  -- git apply --reverse
  pub reverse : Text → Tree → Applied Tree

-- Reversing a patch where it has just been applied restores the working tree.
pub record IsReversible {ℓ} {Tree : Type ℓ} (git : Git Tree) : Type ℓ where
  pub undo :
      (patch : Text) (t u : Tree) → git.apply patch t ≡ changed u → git.reverse patch u ≡ changed t

pub Applied-cases {ℓ} :
    {Tree : Type ℓ} (a : Applied Tree)
    → ((t : Tree) × (a ≡ changed t)) ⊎ ((e : Text) × (a ≡ failed e))
Applied-cases (changed t) = inl (t, refl)
Applied-cases (failed e) = inr (e, refl)
