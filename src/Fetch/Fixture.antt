-- ===== src/Fetch/Fixture.antt =====
-- FixtureFetchSource of fetch.py: the same operations, answered from dictionaries.
use xr_browser.Prelude.{
  ℕ, Text, Bool, ◌&&◌, ◌||◌, Option, none, some, List, [], ◌∷◌, ◌++◌, codes, filter, take, text_eq,
  Dict, lookup, if◌then◌else◌,
}
use xr_browser.Json.{Json, str, Fields, get}
use xr_browser.ListPackage.{Python, or_null}
use xr_browser.Fetch.{no_ref, no_fixture, Outcome, raised, gives}

-- A dictionary with pairs of a revision and a path as keys.
abbrev pub Files {ℓ} : Type ℓ → Type ℓ
Files A = List ((Text × Text) × A)

unfoldable pub file_at {ℓ} : {A : Type ℓ} → Text → Text → Files A → Option A
file_at rev path [] = none
file_at rev path (((r, q), a) ∷ files) =
    if text_eq r rev && text_eq q path then some a else file_at rev path files

pub record FixtureSource : Type 0 where
  pub files : Files Text
  pub dirs : Files (List Text)
  pub logs : Dict (List Json)
  pub refs : Dict Text
  pub commits : Dict Json
  pub release_rows : List Fields

-- d.get(k, default)
abbrev pub or_default {ℓ} : {A : Type ℓ} → A → Option A → A
or_default d none = d
or_default d (some a) = a

unfoldable pub fixture_file_text : FixtureSource → Text → Text → Outcome Text
fixture_file_text f rev path = elim (file_at rev path f.files) [
  | none ↦ raised (no_fixture (rev ++ (b'/' ∷ path)))
  | some text ↦ gives text
]

unfoldable pub fixture_dir_listing : FixtureSource → Text → Text → List Text
fixture_dir_listing f rev path = or_default [] (file_at rev path f.dirs)

unfoldable pub fixture_log : FixtureSource → Text → ℕ → Option Text → List Json
fixture_log f ref n none = take n (or_default [] (lookup ref f.logs))
fixture_log f ref n (some []) = take n (or_default [] (lookup ref f.logs))
fixture_log f ref n (some (c ∷ s)) = take n (
    or_default (or_default [] (lookup ref f.logs)) (lookup ((c ∷ s) ++ (codes ".." ++ ref)) f.logs))

unfoldable pub fixture_commit : FixtureSource → Text → Outcome Json
fixture_commit f rev = elim (lookup rev f.commits) [
  | none ↦ raised (no_fixture rev)
  | some c ↦ gives c
]

unfoldable pub fixture_ref_value : FixtureSource → Text → Outcome Text
fixture_ref_value f ref = elim (lookup ref f.refs) [ none ↦ raised (no_ref ref) | some v ↦ gives v ]

module _ (p : Python) where
  -- The rows of a channel and a platform.
  unfoldable pub row_matches : Text → Text → Fields → Bool
  row_matches channel platform r =
      p.same (or_null (get (codes "channel") r)) (str channel)
      && (p.same (or_null (get (codes "platform") r)) (str platform)
          || p.same (or_null (get (codes "platform") r)) (str (codes "All")))

  unfoldable pub fixture_releases : FixtureSource → Text → Text → ℕ → List Fields
  fixture_releases f channel platform num =
      take num (filter (row_matches channel platform) f.release_rows)
