-- ===== src/Upstream/Classify/Files.antt =====
-- The paths that a patch has rows for: `sorted(set(pin_files) | set(additions))`.
use xr_browser.Prelude.{
  ℕ, ◌<◌, ◌≡◌, ◌≢◌, refl, ap, ◌∙◌, Text, true, false, ◌||◌, List, [], ◌∷◌, ◌++◌, Bool-cases, inl,
  inr, any-append, ltb, ◌==◌, ==_iff, names, text_eq, text_eq_iff, text_mem, arith,
}
use xr_browser.Json.{text_le}
use xr_browser.Upstream.Classify.{Query, all_files, insert_name, sorted_set}

-- The order of texts, by the first character in which they differ.
pub data Before : Text → Text → Type 0 where
  shorter : {d : ℕ} {t : Text} → Before [] (d ∷ t)
  smaller : {c d : ℕ} {s t : Text} → c < d → Before (c ∷ s) (d ∷ t)
  later : {c : ℕ} {s t : Text} → Before s t → Before (c ∷ s) (c ∷ t)

-- Each text comes before the next, so that none is there twice.
pub data IsAscending : List Text → Type 0 where
  nil : IsAscending []
  one : {t : Text} → IsAscending (t ∷ [])
  more :
      {s t : Text} {ts : List Text} → Before s t → IsAscending (t ∷ ts) → IsAscending (s ∷ t ∷ ts)

text_le-Before : (s t : Text) → text_le s t ≡ true → s ≢ t → Before s t
unfolding text_le
text_le-Before [] [] e n = absurd (n refl)
text_le-Before [] (d ∷ t) e n = shorter
text_le-Before (c ∷ s) [] e n = cc
text_le-Before (c ∷ s) (d ∷ t) e n = elim (Bool-cases (ltb c d)) [
  | inl less ↦ smaller (ground arith)
  | inr rest ↦
      let same : c ≡ d = ground (arith, ==_iff c d) in
      rw (← same) (later (text_le-Before s t (ground arith) (λ st. n (cc (same, st)))))
]

text_le-Before_other : (s t : Text) → text_le s t ≡ false → Before t s
unfolding text_le
text_le-Before_other [] t e = cc
text_le-Before_other (c ∷ s) [] e = shorter
text_le-Before_other (c ∷ s) (d ∷ t) e = elim (Bool-cases (c == d)) [
  | inl equal ↦
      let same : c ≡ d = (==_iff c d).0 equal in
      rw (← same) (later (text_le-Before_other s t (ground arith)))
  | inr differ ↦ smaller (ground (arith, ==_iff c d))
]

text_mem-insert_name :
    (m t : Text) (ts : List Text) → text_mem m (insert_name t ts) ≡ (text_eq m t || text_mem m ts)
unfolding insert_name
text_mem-insert_name m t [] = refl
text_mem-insert_name m t (u ∷ us) = ground (arith, text_eq_iff t u, text_mem-insert_name m t us)

text_mem-sorted_set : (m : Text) (ts : List Text) → text_mem m (sorted_set ts) ≡ text_mem m ts
unfolding sorted_set
text_mem-sorted_set m [] = refl
text_mem-sorted_set m (t ∷ ts) =
    text_mem-insert_name m t (sorted_set ts) ∙ ap (λ b. text_eq m t || b) (text_mem-sorted_set m ts)

-- A head that comes before what is inserted stays before all.
insert_behind :
    (s t : Text) (us : List Text)
    → Before s t
    → IsAscending (s ∷ us)
    → IsAscending (insert_name t us)
    → IsAscending (s ∷ insert_name t us)
unfolding insert_name
insert_behind s t [] b a i = more b i
insert_behind s t (u ∷ us) b (more c a) i = elim (Bool-cases (text_eq t u)) [
  | inl same ↦ rw same (more c a)
  | inr differ ↦ elim (Bool-cases (text_le t u)) [
    | inl first ↦ rw (differ, first) (more b (rw (differ, first) at i))
    | inr after ↦ rw (differ, after) (more c (rw (differ, after) at i))
  ]
]

IsAscending-tail : {t : Text} {ts : List Text} → IsAscending (t ∷ ts) → IsAscending ts
IsAscending-tail one = nil
IsAscending-tail (more b a) = a

insert_name-IsAscending :
    (t : Text) (ts : List Text) → IsAscending ts → IsAscending (insert_name t ts)
unfolding insert_name
insert_name-IsAscending t [] a = one
insert_name-IsAscending t (u ∷ us) a = elim (Bool-cases (text_eq t u)) [
  | inl same ↦ rw same a
  | inr differ ↦ elim (Bool-cases (text_le t u)) [
    | inl first ↦
        rw (differ, first)
          (more (text_le-Before t u first (λ e. cc (differ, (text_eq_iff t u).1 e))) a)
    | inr after ↦
        rw (differ, after)
          (insert_behind u t us (text_le-Before_other t u after) a
            (insert_name-IsAscending t us (IsAscending-tail a)))
  ]
]

sorted_set-IsAscending : (ts : List Text) → IsAscending (sorted_set ts)
unfolding sorted_set
sorted_set-IsAscending [] = nil
sorted_set-IsAscending (t ∷ ts) =
    insert_name-IsAscending t (sorted_set ts) (sorted_set-IsAscending ts)

-- The paths that are pinned or added, in ascending order.
pub record ArePaths (q : Query) (ps : List Text) : Type 0 where
  pub ascending : IsAscending ps
  pub exactly :
      (t : Text) → text_mem t ps ≡ (text_mem t (names q.pin_files) || text_mem t q.additions)

pub all_files-ArePaths : (q : Query) → ArePaths q (all_files q)
unfolding all_files
all_files-ArePaths q = record {
  ascending = sorted_set-IsAscending (names q.pin_files ++ q.additions);
  exactly = λ t.
      text_mem-sorted_set t (names q.pin_files ++ q.additions)
      ∙ any-append (text_eq t) (names q.pin_files) q.additions;
}
