-- ===== src/Upstream/Classify/Rows.antt =====
-- The rows and the class of a patch that `classify_patch` of build/upstream/classify.py classifies.
use mathlib.Core.Path.{subst}
use xr_browser.Prelude.{
  Dict, lookup, names, Text, Bool, true, false, ◌==◌, ◌≡◌, ◌≢◌, ◌⊎◌, refl, sym, ap, Option, none,
  some, List, [], ◌∷◌, map, All, text_eq, text_mem, Bool-cases, Option-cases, inl, inr, arith,
}
use xr_browser.Upstream.Class.{Class, clean, stale_base, worst}
use xr_browser.Upstream.Class.Order.{worst-clean_iff}
use xr_browser.Upstream.Classify.Files.{ArePaths, all_files-ArePaths}
use xr_browser.Upstream.Classify.{
  outside_scope, FileResult, PatchResult, Query, Error, Run, ok, raised, PinApply, applied, refused,
  Tools, ◌>>=◌, ◌>>◌, duplicate_addition, pinned_addition, moved_addition, repeats, meets, guard,
  write_tree, read_all, target, all_files, classify_file, addition_row, moved_row, pinned_row,
  file_row, file_rows, clean_row, whole_check, apart, after_pin, classify_patch,
}

-- A result, if there is one, satisfies P.
data Ensures {ℓ κ} {A : Type ℓ} (P : A → Type κ) : Run A → Type (ℓ ⊔ κ) where
  holds : {a : A} → P a → Ensures P (ok a)
  escaped : {e : Error} → Ensures P (raised e)

Ensures-bind {ℓ κ μ} :
    {A : Type ℓ} {B : Type κ} {Q : A → Type μ} {P : B → Type μ} {m : Run A} {f : A → Run B}
    → Ensures Q m
    → ((a : A) → Q a → Ensures P (f a))
    → Ensures P (m >>= f)
Ensures-bind (holds q) k = k _ q
Ensures-bind escaped k = escaped

Ensures-any {ℓ} : {A : Type ℓ} (m : Run A) → Ensures (λ a. Unit {0}) m
Ensures-any (ok a) = holds tt
Ensures-any (raised e) = escaped

Ensures-guard {ℓ κ} :
    {B : Type ℓ} {P : B → Type κ} (m : Run (Unit {0})) {k : Run B}
    → Ensures P k
    → Ensures P (m >> k)
Ensures-guard (ok u) h = h
Ensures-guard (raised e) h = escaped

ok-injective {ℓ} : {A : Type ℓ} {a b : A} → ok a ≡ ok b → a ≡ b
ok-injective e = cc

Ensures-eq-ok {ℓ κ} :
    {A : Type ℓ} {P : A → Type κ} (a : A) {m : Run A} → Ensures P m → m ≡ ok a → P a
Ensures-eq-ok {P} a (holds p) e = subst P (ok-injective e) p
Ensures-eq-ok a escaped e = cc

abbrev paths : List FileResult → List Text
paths = map (λ (f : FileResult). f.path)

abbrev classes : List FileResult → List Class
classes = map (λ (f : FileResult). f.cls)

-- The row is for the path, and is not explained by drift outside the patch.
abbrev RowOf : Text → FileResult → Type 0
RowOf p f = (f.path ≡ p) × (f.detail ≢ outside_scope)

-- Every pinned file has been read back.
Covers : Dict Text → Dict Text → Type 0
Covers pins d = (p : Text) → lookup p pins ≢ none → lookup p d ≢ none

-- What a result of classify_patch is: a patch that does not apply at its own pin, without rows, or
-- a row for each path that is pinned or added, in ascending order of the paths, and the worst class
-- of the rows.
pub record IsClassified (q : Query) (r : PatchResult) : Type 0 where
  pub shape :
      ((r.cls ≡ stale_base) × (r.files ≡ []))
      ⊎ (ArePaths q (paths r.files) × (r.cls ≡ worst (classes r.files)))
  pub in_scope : All (λ (f : FileResult). f.detail ≢ outside_scope) r.files

module _ (tools : Tools) (q : Query) where
  read_all-Covers :
      (read : Text → Option Text) (pins : Dict Text) → Ensures (Covers pins) (read_all read pins)
  unfolding read_all Covers lookup
  read_all-Covers read [] = holds (λ p h. h)
  read_all-Covers read ((p, t) ∷ pins) = elim (Option-cases (read p)) [
    | inl missing ↦ rw (missing, read_all) escaped
    | inr (u, found) ↦
        rw (found, read_all)
          (Ensures-bind (read_all-Covers read pins) (λ d c. holds (λ k h.
            elim (Bool-cases (text_eq p k)) [
              | inl here ↦ rw here (λ e. cc)
              | inr later ↦ rw later (c k (ground (arith, h)))
            ])))
  ]

  classify_file-RowOf :
      (p pin : Text) (there patched : Option Text)
      → patched ≢ none
      → RowOf p (classify_file tools p pin there patched)
  unfolding classify_file
  classify_file-RowOf p pin none patched h = (refl, λ e. cc)
  classify_file-RowOf p pin (some there) none h = absurd (h refl)
  classify_file-RowOf p pin (some there) (some ours) h = elim (Bool-cases (text_eq pin there)) [
    | inl same ↦ rw same (refl, λ e. cc)
    | inr differ ↦ elim (Bool-cases (tools.merge_file ours pin there == 0)) [
      | inl mergeable ↦ rw (differ, mergeable) (refl, λ e. cc)
      | inr clash ↦ rw (differ, clash) (refl, λ e. cc)
    ]
  ]

  addition_row-RowOf : (p : Text) (there : Option Text) → RowOf p (addition_row tools p there)
  unfolding addition_row
  addition_row-RowOf p none = (refl, λ e. cc)
  addition_row-RowOf p (some t) = (refl, λ e. cc)

  module _ (patched : Dict Text) (covers : Covers q.pin_files patched) where
    file_row-RowOf : (p : Text) → Ensures (RowOf p) (file_row tools q patched p)
    unfolding file_row addition_row moved_row pinned_row Covers
    file_row-RowOf p = elim (Bool-cases (text_mem p q.additions)) [
      | inl added ↦ rw added (holds (addition_row-RowOf p (target p q.target_files)))
      | inr kept ↦ elim (Option-cases (lookup p q.moved_targets)) [
        | inr (new, there) ↦ rw (kept, there) (holds (refl, λ e. cc))
        | inl still ↦ elim (Option-cases (lookup p q.pin_files)) [
          | inl unknown ↦ rw (kept, still, unknown) escaped
          | inr (pin, known) ↦
              rw (kept, still, known)
                (holds (
                  classify_file-RowOf p pin (target p q.target_files) (lookup p patched)
                    (covers p (λ e. cc (known, e)))))
        ]
      ]
    ]

    file_rows-RowOf :
        (ps : List Text)
        → Ensures
            (λ rs. (paths rs ≡ ps) × All (λ (f : FileResult). f.detail ≢ outside_scope) rs)
            (file_rows tools q patched ps)
    unfolding file_rows
    file_rows-RowOf [] = holds (refl, tt)
    file_rows-RowOf (p ∷ ps) = Ensures-bind (file_row-RowOf p) λ f here.
        Ensures-bind (file_rows-RowOf ps)
          λ fs later. holds (cc (here.0, later.0), (here.1, later.1))

  clean_rows :
      (ps : List Text)
      → (paths (map (clean_row tools q) ps) ≡ ps)
        × All (λ c. c ≡ clean) (classes (map (clean_row tools q) ps))
        × All (λ (f : FileResult). f.detail ≢ outside_scope) (map (clean_row tools q) ps)
  unfolding clean_row
  clean_rows [] = (refl, tt, tt)
  clean_rows (p ∷ ps) =
      let (same, all_clean, inside) = clean_rows ps in
      (
        ap (λ ts. p ∷ ts) same,
        (refl, all_clean),
        elim (Bool-cases (text_mem p q.additions)) [
          | inl added ↦ rw added ((λ e. cc), inside)
          | inr kept ↦ rw kept ((λ e. cc), inside)
        ],
      )

  apart-IsClassified :
      (patched : Dict Text) (whole : Bool)
      → Covers q.pin_files patched
      → Ensures (IsClassified q) (apart tools q patched whole)
  unfolding apart
  apart-IsClassified patched true covers =
      let (same, all_clean, inside) = clean_rows (all_files q) in
      holds (record {
        shape = inr (rw same (all_files-ArePaths q), sym ((worst-clean_iff _).1 all_clean));
        in_scope = inside;
      })
  apart-IsClassified patched false covers =
      Ensures-bind (file_rows-RowOf patched covers (all_files q)) λ rows r.
        holds (record { shape = inr (rw r.0 (all_files-ArePaths q), refl); in_scope = r.1 })

  after_pin-IsClassified :
      (applied_pin : PinApply) → Ensures (IsClassified q) (after_pin tools q applied_pin)
  unfolding after_pin
  after_pin-IsClassified (refused error) =
      holds (record { shape = inl (refl, refl); in_scope = tt })
  after_pin-IsClassified (applied read) =
      Ensures-bind (read_all-Covers read q.pin_files) λ patched covers.
        Ensures-bind (Ensures-any (whole_check tools q))
          λ whole _. apart-IsClassified patched whole covers

  classified : Ensures (IsClassified q) (classify_patch tools q)
  unfolding classify_patch
  classified = Ensures-guard (guard (repeats q.additions) duplicate_addition) (
      Ensures-guard (guard (meets q.additions (names q.pin_files)) pinned_addition) (
        Ensures-guard (guard (meets q.additions (names q.moved_targets)) moved_addition) (
          Ensures-guard (write_tree q.pin_files)
            (after_pin-IsClassified (tools.apply_patch q.pin_files q.patch_text)))))

  -- A patch that classify_patch classifies has no rows and the class stale-base, or a row for each
  -- pinned or added path, in ascending order and none twice, and the worst class of its rows; no row
  -- is explained by drift outside the patch.
  pub classify_patch-IsClassified :
      (r : PatchResult) → classify_patch tools q ≡ ok r → IsClassified q r
  classify_patch-IsClassified r h = Ensures-eq-ok r classified h
