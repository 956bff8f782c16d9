-- ===== src/ListPackage.antt =====
-- xr-lists/bundle_bytes.py, sign.py and attribution.py: the package around a compiled bundle. This file
-- has the values that they read, as json.loads gives them; a Python exception is `none`.
pub mod Digest
pub mod Manifest
pub mod Bundled
pub mod Compiled
use xr_browser.Prelude.{
  ℕ, zero, suc, ◌<◌, Text, String, Bool, true, false, not, Option, none, some, List, [], ◌∷◌, map,
  is_empty, length, has_text, text_mem, codes, any, if◌then◌else◌,
}
use xr_browser.Json.{
  Json, null, bool, int, neg, float, str, arr, obj, Items, nil, cons, Fields, end, field, items,
  keys, get,
}

infixl 5 ◌>>=◌
abbrev pub ◌>>=◌ {ℓ κ} : {A : Type ℓ} {B : Type κ} → Option A → (A → Option B) → Option B
none >>= next = none
some value >>= next = next value

-- What the programs take from Python: `==` on two values, the floats that are zero, and SHA-256 of a
-- text in UTF-8.
pub record Python : Type 0 where
  pub same : Json → Json → Bool
  pub is_zero : Text → Bool
  pub sha256 : Text → Text

-- d["k"]
unfoldable pub at_key : String → Json → Option Json
at_key k (obj fs) = get (codes k) fs
at_key k _ = none

-- d.get("k")
unfoldable pub get_of : String → Json → Option (Option Json)
get_of k (obj fs) = some (get (codes k) fs)
get_of k _ = none

-- What `for x in v` runs through.
unfoldable pub iterate : Json → Option (List Json)
iterate (arr vs) = some (items vs)
iterate (obj fs) = some (map str (keys fs))
iterate (str s) = some (map (λ c. str (c ∷ [])) s)
iterate _ = none

-- len(v)
unfoldable pub len_of : Json → Option ℕ
len_of v = iterate v >>= λ vs. some (length vs)

abbrev pub or_null : Option Json → Json
or_null none = null
or_null (some v) = v

-- isinstance(v, int) and not isinstance(v, bool)
abbrev pub is_int : Json → Bool
is_int (int n) = true
is_int (neg n) = true
is_int _ = false

-- isinstance(v, str) and v
abbrev pub is_filled : Json → Bool
is_filled (str (c ∷ s)) = true
is_filled _ = false

-- A list that f is applied to, unless f raises.
abbrev pub map_all {ℓ κ} : {A : Type ℓ} {B : Type κ} → (A → Option B) → List A → Option (List B)
map_all f [] = some []
map_all f (x ∷ xs) = f x >>= λ y. map_all f xs >>= λ ys. some (y ∷ ys)

module _ (p : Python) where
  -- bool(v)
  unfoldable pub truthy : Json → Bool
  truthy null = false
  truthy (bool b) = b
  truthy (int zero) = false
  truthy (int (suc n)) = true
  truthy (neg n) = true
  truthy (float t) = not (p.is_zero t)
  truthy (str s) = not (is_empty s)
  truthy (arr nil) = false
  truthy (arr (cons v vs)) = true
  truthy (obj end) = false
  truthy (obj (field k v fs)) = true

  -- "k" in v
  unfoldable pub holds_key : String → Json → Option Bool
  holds_key k (obj fs) = some (text_mem (codes k) (keys fs))
  holds_key k (arr vs) = some (any (p.same (str (codes k))) (items vs))
  holds_key k (str s) = some (has_text (codes k) s)
  holds_key k _ = none
