-- ===== src/PatchQueue/Paths.antt =====
-- The path policy of build/patching/apply.py.
pub mod Stripped
pub mod Allowed
use xr_browser.Prelude.{
  Text, Bool, true, false, ◌||◌, List, [], ◌∷◌, any, reverse, ◌==◌, text_eq, text_mem, starts_with,
  split, codes, if◌then◌else◌,
}

-- p.startswith("/") or ".." in Path(p).parts
unfoldable pub escapes : Text → Bool
escapes p = starts_with (codes "/") p || text_mem (codes "..") (split b'/' p)

unfoldable drop_slashes : Text → Text
drop_slashes [] = []
drop_slashes (c ∷ s) = if c == b'/' then drop_slashes s else c ∷ s

-- r.rstrip("/")
unfoldable pub rstrip_slash : Text → Text
unfolding drop_slashes
rstrip_slash r = reverse (drop_slashes (reverse r))

unfoldable pub in_root : Text → Text → Bool
in_root p r = text_eq p (rstrip_slash r) || starts_with r p

pub data PathFailure : Type 0 where
  escaping outside : Text → PathFailure

unfoldable pub check_path_policy : List Text → List Text → List PathFailure
check_path_policy [] roots = []
check_path_policy (p ∷ ps) roots =
    let rest = check_path_policy ps roots in
    if escapes p
    then escaping p ∷ rest
    else if any (in_root p) roots
    then rest
    else outside p ∷ rest
