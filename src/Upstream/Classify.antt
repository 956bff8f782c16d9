-- ===== src/Upstream/Classify.antt =====
-- `classify_patch` of build/upstream/classify.py: one patch against the files of the pinned and of the
-- target revision.
pub mod Files
pub mod Rows
use xr_browser.Prelude.{
  Dict, lookup, names, ℕ, Text, Bool, true, false, not, ◌==◌, ◌||◌, ◌&&◌, Option, none, some, List,
  [], ◌∷◌, ◌++◌, all, any, map, text_eq, text_mem, codes, if◌then◌else◌,
}
use xr_browser.Json.{text_le}
use xr_browser.PatchQueue.Paths.{escapes}
use xr_browser.Upstream.Class.{
  Class, clean, drift, semantic, moved, deleted, stale_base, path_collision, worst,
}

-- The explanation of a row; a constructor stands for a literal of the source.
pub data Detail : Type 0 where
  no_detail target_absent outside_scope merge_clean created_whole created_apart : Detail
  collides found_elsewhere : Detail
  conflicts : ℕ → Detail

pub record FileResult : Type 0 where
  pub path : Text
  pub cls : Class
  pub detail : Detail
  pub moved_to : Option Text

pub record PatchResult : Type 0 where
  pub id : Text
  pub owner : Text
  pub category : Text
  pub cls : Class
  pub files : List FileResult
  pub detail : Text

-- The arguments of classify_patch.
pub record Query : Type 0 where
  pub patch_id : Text
  pub owner : Text
  pub category : Text
  pub patch_text : Text
  pub pin_files : Dict Text
  pub target_files : Dict (Option Text)
  pub additions : List Text
  pub moved_targets : Dict Text

-- The exceptions that leave classify_patch: the ClassifyErrors, an unreadable file and a KeyError.
pub data Error : Type 0 where
  duplicate_addition pinned_addition moved_addition : Error
  illegal_path unreadable no_pin : Text → Error

pub data Run {ℓ} (A : Type ℓ) : Type ℓ where
  ok : A → Run A
  raised : Error → Run A

infixl 5 ◌>>=◌ ◌>>◌
abbrev pub ◌>>=◌ {ℓ κ} : {A : Type ℓ} {B : Type κ} → Run A → (A → Run B) → Run B
ok a >>= f = f a
raised e >>= f = raised e

abbrev pub ◌>>◌ {ℓ} : {B : Type ℓ} → Run (Unit {0}) → Run B → Run B
m >> k = m >>= λ _. k

-- The tree that `git apply` leaves, read by path, or its error text.
pub data PinApply : Type 0 where
  applied : (Text → Option Text) → PinApply
  refused : Text → PinApply

-- git, run on a scratch tree of the given files.
pub record Tools : Type 0 where
  pub apply_patch : Dict Text → Text → PinApply
  pub apply_check : Dict Text → Text → Bool
  -- git merge-file: the exit code for ours, base and theirs
  pub merge_file : Text → Text → Text → ℕ

-- len(set(ts)) != len(ts)
repeats : List Text → Bool
repeats [] = false
repeats (t ∷ ts) = text_mem t ts || repeats ts

-- set(ts) & set(us)
meets : List Text → List Text → Bool
meets ts us = any (λ t. text_mem t us) ts

guard : Bool → Error → Run (Unit {0})
guard true e = raised e
guard false e = ok tt

-- _write_tree, which refuses illegal paths
write_tree : Dict Text → Run (Unit {0})
write_tree [] = ok tt
write_tree ((rel, text) ∷ files) =
    if escapes rel then raised (illegal_path rel) else write_tree files

-- {p: read_text(p) for p in pin_files}
read_all : (Text → Option Text) → Dict Text → Run (Dict Text)
read_all read [] = ok []
read_all read ((p, _) ∷ pins) = elim (read p) [
  | none ↦ raised (unreadable p)
  | some t ↦ read_all read pins >>= (λ d. ok ((p, t) ∷ d))
]

-- target_files.get(p)
target : Text → Dict (Option Text) → Option Text
target p files = elim (lookup p files) [ none ↦ none | some t ↦ t ]

present : Option Text → Bool
present none = false
present (some t) = true

-- {p: t for p, t in target_files.items() if t is not None}
existing : Dict (Option Text) → Dict Text
existing [] = []
existing ((p, none) ∷ files) = existing files
existing ((p, some t) ∷ files) = (p, t) ∷ existing files

insert_name : Text → List Text → List Text
insert_name t [] = t ∷ []
insert_name t (u ∷ us) =
    if text_eq t u then u ∷ us else if text_le t u then t ∷ u ∷ us else u ∷ insert_name t us

sorted_set : List Text → List Text
sorted_set [] = []
sorted_set (t ∷ ts) = insert_name t (sorted_set ts)

-- sorted(set(pin_files) | set(additions))
unfoldable pub all_files : Query → List Text
unfolding sorted_set insert_name
all_files q = sorted_set (names q.pin_files ++ q.additions)

abbrev row : Text → Class → Detail → FileResult
row path cls detail = record { path = path; cls = cls; detail = detail; moved_to = none }

module _ (tools : Tools) where
  unfoldable pub classify_file : Text → Text → Option Text → Option Text → FileResult
  classify_file path pin none patched = row path deleted target_absent
  classify_file path pin (some there) none =
      if text_eq pin there then row path clean no_detail else row path clean outside_scope
  classify_file path pin (some there) (some ours) =
      if text_eq pin there
      then row path clean no_detail
      else let n = tools.merge_file ours pin there in
        if n == 0 then row path drift merge_clean else row path semantic (conflicts n)

  addition_row : Text → Option Text → FileResult
  addition_row path none = row path clean created_apart
  addition_row path (some there) = row path path_collision collides

  moved_row : Text → Text → FileResult
  moved_row path new = record {
    path = path;
    cls = moved;
    detail = found_elsewhere;
    moved_to = some new;
  }

  pinned_row : Query → Dict Text → Text → Option Text → Run FileResult
  pinned_row q patched path none = raised (no_pin path)
  pinned_row q patched path (some pin) =
      ok (classify_file path pin (target path q.target_files) (lookup path patched))

  -- The body of the last loop.
  file_row : Query → Dict Text → Text → Run FileResult
  file_row q patched path =
      if text_mem path q.additions
      then ok (addition_row path (target path q.target_files))
      else elim (lookup path q.moved_targets) [
        | some new ↦ ok (moved_row path new)
        | none ↦ pinned_row q patched path (lookup path q.pin_files)
      ]

  file_rows : Query → Dict Text → List Text → Run (List FileResult)
  file_rows q patched [] = ok []
  file_rows q patched (p ∷ ps) = do
    r ← file_row q patched p
    rs ← file_rows q patched ps
    ok (r ∷ rs)

  clean_row : Query → Text → FileResult
  clean_row q p = row p clean (if text_mem p q.additions then created_whole else no_detail)

  abbrev result : Query → Class → List FileResult → Text → PatchResult
  result q cls files detail = record {
    id = q.patch_id;
    owner = q.owner;
    category = q.category;
    cls = cls;
    files = files;
    detail = detail;
  }

  -- Whether the whole patch applies at the target.
  whole_check : Query → Run Bool
  whole_check q =
      if all (λ p. present (target p q.target_files)) (names q.pin_files)
      then write_tree (existing q.target_files)
        >> ok (tools.apply_check (existing q.target_files) q.patch_text)
      else ok false

  -- The rows, where the patch does not apply at the target as a whole.
  apart : Query → Dict Text → Bool → Run PatchResult
  apart q patched true = ok (result q clean (map (clean_row q) (all_files q)) [])
  apart q patched false = do
    rows ← file_rows q patched (all_files q)
    ok (result q (worst (map (λ (f : FileResult). f.cls) rows)) rows [])

  after_pin : Query → PinApply → Run PatchResult
  after_pin q (refused error) =
      ok (result q stale_base [] (codes "patch does not apply at its recorded pin: " ++ error))
  after_pin q (applied read) = do
    patched ← read_all read q.pin_files
    whole ← whole_check q
    apart q patched whole

  unfoldable pub classify_patch : Query → Run PatchResult
  unfolding repeats meets guard write_tree read_all target present existing addition_row moved_row
      pinned_row file_row file_rows clean_row whole_check apart after_pin
  classify_patch q = do
    guard (repeats q.additions) duplicate_addition
    guard (meets q.additions (names q.pin_files)) pinned_addition
    guard (meets q.additions (names q.moved_targets)) moved_addition
    write_tree q.pin_files
    after_pin q (tools.apply_patch q.pin_files q.patch_text)
