-- ===== src/UpdateServer/Answer.antt =====
-- How a piece of `handle` ends: with a value, with a typed refusal of the whole request, or with a
-- Python exception that nothing catches.
use mathlib.Core.Path.{subst}
use xr_browser.Prelude.{Text, ◌≡◌, ◌≢◌, Bool, true, false, refl}

pub data Code : Type 0 where
  too_large truncated bad_length malformed_request unknown_field wrong_protocol : Code
  bad_appid bad_channel bad_bucket bad_version : Code

pub data Answer {ℓ} (A : Type ℓ) : Type ℓ where
  ok : A → Answer A
  err : Code → Text → Answer A
  raised : Answer A

infixl 5 ◌>>=◌ ◌>>◌
abbrev pub ◌>>=◌ {ℓ κ} : {A : Type ℓ} {B : Type κ} → Answer A → (A → Answer B) → Answer B
ok a >>= f = f a
err c d >>= f = err c d
raised >>= f = raised

abbrev pub ◌>>◌ {ℓ} : {B : Type ℓ} → Answer (Unit {0}) → Answer B → Answer B
m >> k = m >>= λ _. k

-- `if not test: return err(…)`
abbrev pub require : Bool → Code → Text → Answer (Unit {0})
require true c d = ok tt
require false c d = err c d

ok-injective {ℓ} : {A : Type ℓ} {a b : A} → ok a ≡ ok b → a ≡ b
ok-injective e = cc

-- A result, if there is one, satisfies `P`.
pub data Ensures {ℓ κ} {A : Type ℓ} (P : A → Type κ) : Answer A → Type (ℓ ⊔ κ) where
  holds : {a : A} → P a → Ensures P (ok a)
  refused : {c : Code} {d : Text} → Ensures P (err c d)
  escaped : Ensures P raised

pub Ensures-bind {ℓ κ} :
    {A : Type ℓ} {B : Type κ} {Q : A → Type ℓ} {P : B → Type κ} {m : Answer A} {f : A → Answer B}
    → Ensures Q m
    → ((a : A) → Q a → Ensures P (f a))
    → Ensures P (m >>= f)
Ensures-bind (holds q) k = k _ q
Ensures-bind refused k = refused
Ensures-bind escaped k = escaped

pub Ensures-require : (b : Bool) (c : Code) (d : Text) → Ensures (λ u. b ≡ true) (require b c d)
Ensures-require true c d = holds refl
Ensures-require false c d = refused

pub Ensures-eq-ok {ℓ κ} :
    {A : Type ℓ} {P : A → Type κ} (a : A) {m : Answer A} → Ensures P m → m ≡ ok a → P a
Ensures-eq-ok {P} a (holds p) e = subst P (ok-injective e) p
Ensures-eq-ok a refused e = cc
Ensures-eq-ok a escaped e = cc

pub Ensures-map {ℓ κ} :
    {A : Type ℓ} {Q P : A → Type κ} {m : Answer A}
    → Ensures Q m
    → ((a : A) → Q a → P a)
    → Ensures P m
Ensures-map (holds q) k = holds (k _ q)
Ensures-map refused k = refused
Ensures-map escaped k = escaped

pub Ensures-self {ℓ} : {A : Type ℓ} (m : Answer A) → Ensures (λ a. m ≡ ok a) m
Ensures-self (ok a) = holds refl
Ensures-self (err c d) = refused
Ensures-self raised = escaped

pub bind-ne-raised {ℓ κ} :
    {A : Type ℓ} {B : Type κ} (m : Answer A) {f : A → Answer B}
    → m ≢ raised
    → ((a : A) → f a ≢ raised)
    → (m >>= f) ≢ raised
bind-ne-raised (ok a) h k = k a
bind-ne-raised (err c d) h k = λ e. cc
bind-ne-raised raised h k = absurd (h refl)

-- The rest of a block may use that the test held.
pub require-ne-raised {ℓ} :
    {B : Type ℓ} (b : Bool) (c : Code) (d : Text) {k : Answer B}
    → (b ≡ true → k ≢ raised)
    → (require b c d >> k) ≢ raised
require-ne-raised true c d h = h refl
require-ne-raised false c d h = λ e. cc

-- The same, where the next step can use what the first one gave.
pub bind-ne-raised_at {ℓ κ} :
    {A : Type ℓ} {B : Type κ} (m : Answer A) {f : A → Answer B}
    → m ≢ raised
    → ((a : A) → m ≡ ok a → f a ≢ raised)
    → (m >>= f) ≢ raised
bind-ne-raised_at (ok a) h k = k a refl
bind-ne-raised_at (err c d) h k = λ e. cc
bind-ne-raised_at raised h k = absurd (h refl)
