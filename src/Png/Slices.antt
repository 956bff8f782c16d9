-- ===== src/Png/Slices.antt =====
-- Slices of lists, and reads and writes at an index.
use xr_browser.Prelude.{
  ℕ, zero, suc, ◌+◌, ◌-◌, ◌≤◌, ◌<◌, ◌≡◌, ◌≢◌, refl, ap, List, [], ◌∷◌, ◌++◌, length, take, drop,
  All, arith,
}
use native.Mathlib.Numerals.{unary_clauses}
use xr_browser.Png.{Bytes, byte_at, set_byte}

module _ {ℓ} {A : Type ℓ} where
  pub take-append : (xs ys : List A) → take (length xs) (xs ++ ys) ≡ xs
  take-append [] ys = refl
  take-append (x ∷ xs) ys = ap (λ t. x ∷ t) (take-append xs ys)

  pub drop-append : (xs ys : List A) → drop (length xs) (xs ++ ys) ≡ ys
  drop-append [] ys = refl
  drop-append (x ∷ xs) ys = drop-append xs ys

  pub append-take : (n : ℕ) (xs : List A) → take n xs ++ drop n xs ≡ xs
  append-take zero xs = refl
  append-take (suc n) [] = refl
  append-take (suc n) (x ∷ xs) = ap (λ t. x ∷ t) (append-take n xs)

  pub take_all : (xs : List A) → take (length xs) xs ≡ xs
  take_all [] = refl
  take_all (x ∷ xs) = ap (λ t. x ∷ t) (take_all xs)

  pub take_add : (m n : ℕ) (xs : List A) → take (m + n) xs ≡ take m xs ++ take n (drop m xs)
  take_add zero n xs = let e : 0 + n ≡ n = omega arith in rw e refl
  take_add (suc m) zero [] = simp unary_clauses refl
  take_add (suc m) (suc n) [] = simp unary_clauses refl
  take_add (suc m) n (x ∷ xs) =
      let e : suc m + n ≡ suc (m + n) = omega arith in rw e (ap (λ t. x ∷ t) (take_add m n xs))

  pub drop_add : (m n : ℕ) (xs : List A) → drop (m + n) xs ≡ drop n (drop m xs)
  drop_add zero n xs = let e : 0 + n ≡ n = omega arith in rw e refl
  drop_add (suc m) zero [] = simp unary_clauses refl
  drop_add (suc m) (suc n) [] = simp unary_clauses refl
  drop_add (suc m) n (x ∷ xs) =
      let e : suc m + n ≡ suc (m + n) = omega arith in rw e (drop_add m n xs)

  pub length-take : (n : ℕ) (xs : List A) → n ≤ length xs → length (take n xs) ≡ n
  length-take zero xs h = refl
  length-take (suc n) [] h = absurd (omega arith)
  length-take (suc n) (x ∷ xs) h = ap suc (length-take n xs (omega arith))

  pub length-drop : (n : ℕ) (xs : List A) → length (drop n xs) ≡ length xs - n
  length-drop zero xs = omega arith
  length-drop (suc n) [] = omega arith
  length-drop (suc n) (x ∷ xs) = omega (arith, length-drop n xs)

module _ {ℓ κ} {A : Type ℓ} (P : A → Type κ) where
  pub All-take : (n : ℕ) (xs : List A) → All P xs → All P (take n xs)
  All-take zero xs h = tt
  All-take (suc n) [] h = tt
  All-take (suc n) (x ∷ xs) h = (h.0, All-take n xs h.1)

  pub All-drop : (n : ℕ) (xs : List A) → All P xs → All P (drop n xs)
  All-drop zero xs h = h
  All-drop (suc n) [] h = tt
  All-drop (suc n) (x ∷ xs) h = All-drop n xs h.1

-- Each number is a byte.
abbrev pub IsBytes : Bytes → Type 0
IsBytes xs = All (λ b. b < 256) xs

pub length-set_byte : (i v : ℕ) (xs : Bytes) → length (set_byte i v xs) ≡ length xs
unfolding set_byte
length-set_byte i v [] = refl
length-set_byte zero v (x ∷ xs) = refl
length-set_byte (suc i) v (x ∷ xs) = ap suc (length-set_byte i v xs)

pub byte_at-set_byte : (i v : ℕ) (xs : Bytes) → i < length xs → byte_at i (set_byte i v xs) ≡ v
unfolding set_byte byte_at
byte_at-set_byte i v [] h = absurd (omega arith)
byte_at-set_byte zero v (x ∷ xs) h = refl
byte_at-set_byte (suc i) v (x ∷ xs) h = byte_at-set_byte i v xs (omega arith)

pub byte_at-set_byte_other :
    (i j v : ℕ) (xs : Bytes) → i ≢ j → byte_at j (set_byte i v xs) ≡ byte_at j xs
unfolding set_byte byte_at
byte_at-set_byte_other i j v [] h = refl
byte_at-set_byte_other zero zero v (x ∷ xs) h = absurd (h refl)
byte_at-set_byte_other zero (suc j) v (x ∷ xs) h = refl
byte_at-set_byte_other (suc i) zero v (x ∷ xs) h = refl
byte_at-set_byte_other (suc i) (suc j) v (x ∷ xs) h =
    byte_at-set_byte_other i j v xs (λ e. h (ap suc e))

-- Lists of one length with one byte at each index are one list.
pub byte_at_ext :
    (xs ys : Bytes)
    → length xs ≡ length ys
    → ((j : ℕ) → j < length ys → byte_at j xs ≡ byte_at j ys)
    → xs ≡ ys
unfolding byte_at
byte_at_ext [] [] h e = refl
byte_at_ext [] (y ∷ ys) h e = absurd (omega arith)
byte_at_ext (x ∷ xs) [] h e = absurd (omega arith)
byte_at_ext (x ∷ xs) (y ∷ ys) h e =
    let first : x ≡ y = e 0 (omega arith) in
    let rest : xs ≡ ys = byte_at_ext xs ys (omega arith) (λ j l. e (suc j) (omega arith)) in cc

pub byte_at-lt : (i : ℕ) (xs : Bytes) → IsBytes xs → byte_at i xs < 256
unfolding byte_at
byte_at-lt i [] h = omega arith
byte_at-lt zero (x ∷ xs) h = h.0
byte_at-lt (suc i) (x ∷ xs) h = byte_at-lt i xs h.1

pub set_byte-IsBytes : (i v : ℕ) (xs : Bytes) → v < 256 → IsBytes xs → IsBytes (set_byte i v xs)
unfolding set_byte
set_byte-IsBytes i v [] l h = tt
set_byte-IsBytes zero v (x ∷ xs) l h = (l, h.1)
set_byte-IsBytes (suc i) v (x ∷ xs) l h = (h.0, set_byte-IsBytes i v xs l h.1)
