-- ===== src/ListCompiler/Domains.antt =====
-- `split_domains` and `split_cosmetic_domains` of xr-lists/compile.py.
pub mod Scoping
use xr_browser.Prelude.{
  Text, ◌&&◌, Option, none, some, List, [], ◌∷◌, ◌++◌, is_empty, strip, split, ◌==◌, if◌then◌else◌,
}

-- One round: an empty entry or a bare "~" gives up.
add_entry : List Text × List Text → Text → Option (List Text × List Text)
add_entry (inc, exc) [] = none
add_entry (inc, exc) (c ∷ rest) =
    if c == b'~'
    then (if is_empty rest then none else some (inc, exc ++ rest ∷ []))
    else some (inc ++ (c ∷ rest) ∷ [], exc)

add_entries : List Text × List Text → List Text → Option (List Text × List Text)
add_entries acc [] = some acc
add_entries acc (e ∷ es) = elim (add_entry acc e) [ none ↦ none | some next ↦ add_entries next es ]

non_empty : List Text × List Text → Option (List Text × List Text)
non_empty (inc, exc) = if is_empty inc && is_empty exc then none else some (inc, exc)

pub strip_all : List Text → List Text
strip_all [] = []
strip_all (e ∷ es) = strip e ∷ strip_all es

collect : List Text → Option (List Text × List Text)
collect entries = elim (add_entries ([], []) entries) [ none ↦ none | some acc ↦ non_empty acc ]

unfoldable pub split_domains : Text → Option (List Text × List Text)
unfolding add_entry add_entries non_empty collect
split_domains value = collect (split b'|' value)

unfoldable pub split_cosmetic_domains : Text → Option (List Text × List Text)
unfolding add_entry add_entries non_empty collect strip_all
split_cosmetic_domains lhs = collect (strip_all (split b',' lhs))
