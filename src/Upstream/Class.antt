-- ===== src/Upstream/Class.antt =====
-- The classes of build/upstream/classify.py, their order, and the verdict on a run.
pub mod Order
use xr_browser.Prelude.{Bool, true, false, ◌||◌, List, [], ◌∷◌, any, if◌then◌else◌}

pub data Class : Type 0 where
  clean drift semantic moved deleted stale_base path_collision : Class

-- The position in _SEVERITY; two classes with one position are one class.
unfoldable pub class_eq : Class → Class → Bool
class_eq clean clean = true
class_eq drift drift = true
class_eq semantic semantic = true
class_eq moved moved = true
class_eq deleted deleted = true
class_eq stale_base stale_base = true
class_eq path_collision path_collision = true
class_eq _ _ = false

-- _SEVERITY, worst first
abbrev pub severity : List Class
severity = stale_base ∷ semantic ∷ path_collision ∷ deleted ∷ moved ∷ drift ∷ clean ∷ []

unfoldable pub first_in : List Class → List Class → Class
first_in [] classes = clean
first_in (c ∷ cs) classes = if any (class_eq c) classes then c else first_in cs classes

-- _worst(classes)
unfoldable pub worst : List Class → Class
worst classes = first_in severity classes

pub data Verdict : Type 0 where
  green drifted broken : Verdict

-- c in _BROKEN_CLASSES
abbrev pub is_broken : Class → Bool
is_broken stale_base = true
is_broken semantic = true
is_broken deleted = true
is_broken path_collision = true
is_broken _ = false

-- c in _DRIFT_CLASSES
abbrev pub is_drift : Class → Bool
is_drift moved = true
is_drift drift = true
is_drift _ = false

-- verdict_of, on the classes of the patches
unfoldable pub verdict_of : List Class → Verdict
verdict_of classes =
    if any is_broken classes then broken else if any is_drift classes then drifted else green
