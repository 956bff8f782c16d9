-- ===== src/Prelude/Dicts.antt =====
-- A Python dictionary with texts as keys, as an association list in its order of insertion.
use mathlib.Core.Path.{◌≡◌}
use mathlib.Core.Logic.{◌≢◌}
use mathlib.Core.Option.{Option, none, some}
use mathlib.Core.List.{List, [], ◌∷◌}
use native.Mathlib.Omega.{arith}
use xr_browser.Prelude.Tests.{if◌then◌else◌}
use xr_browser.Prelude.Texts.{Text, text_eq, text_eq_iff}

abbrev pub Dict {ℓ} : Type ℓ → Type ℓ
Dict A = List (Text × A)

module _ {ℓ} {A : Type ℓ} where
  -- d.get(k)
  unfoldable pub lookup : Text → Dict A → Option A
  lookup k [] = none
  lookup k ((j, v) ∷ d) = if text_eq j k then some v else lookup k d

  -- list(d)
  abbrev pub names : Dict A → List Text
  names [] = []
  names ((k, v) ∷ d) = k ∷ names d

  -- d[k] = v
  unfoldable pub store : Text → A → Dict A → Dict A
  store k v [] = (k, v) ∷ []
  store k v ((j, w) ∷ d) = if text_eq j k then (j, v) ∷ d else (j, w) ∷ store k v d

  pub lookup-store : (k : Text) (v : A) (d : Dict A) → lookup k (store k v d) ≡ some v
  unfolding lookup store
  lookup-store k v [] = ground (arith, text_eq_iff k k)
  lookup-store k v ((j, w) ∷ d) = ground (arith, lookup-store k v d)

  pub lookup-store_other :
      (j k : Text) (v : A) (d : Dict A) → k ≢ j → lookup j (store k v d) ≡ lookup j d
  unfolding lookup store
  lookup-store_other j k v [] h = ground (arith, text_eq_iff k j)
  lookup-store_other j k v ((i, w) ∷ d) h =
      ground (arith, text_eq_iff i k, text_eq_iff i j, lookup-store_other j k v d h)
