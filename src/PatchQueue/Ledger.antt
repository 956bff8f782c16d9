-- ===== src/PatchQueue/Ledger.antt =====
-- The applicability ledger of build/patching/apply.py: a dictionary from patch ids to entries, as an
-- association list in the dictionary's order.
use xr_browser.Prelude.{
  Text, Bool, true, false, ◌≡◌, ◌≢◌, List, [], ◌∷◌, text_eq, text_eq_iff, All, arith, if◌then◌else◌,
  Bool-cases, inl, inr,
}

pub record LedgerEntry : Type 0 where
  pub applied_at_rev : Text
  pub content_hash : Text

abbrev pub Ledger : Type 0
Ledger = List (Text × LedgerEntry)

-- applied.get(pid, {}).get("content_hash") == h
unfoldable pub is_recorded : Text → Text → Ledger → Bool
is_recorded pid h [] = false
is_recorded pid h ((k, e) ∷ l) =
    if text_eq k pid then text_eq e.content_hash h else is_recorded pid h l

-- applied[pid] = e
unfoldable pub put : Text → LedgerEntry → Ledger → Ledger
put pid e [] = (pid, e) ∷ []
put pid e ((k, f) ∷ l) = if text_eq k pid then (k, e) ∷ l else (k, f) ∷ put pid e l

-- del applied[pid]
unfoldable pub delete : Text → Ledger → Ledger
delete pid [] = []
delete pid ((k, f) ∷ l) = if text_eq k pid then l else (k, f) ∷ delete pid l

-- pid not in applied
unfoldable pub Lacks : Text → Ledger → Type 0
Lacks pid l = All (λ (f : Text × LedgerEntry). f.0 ≢ pid) l

pub is_recorded-put :
    (pid : Text) (e : LedgerEntry) (l : Ledger)
    → is_recorded pid e.content_hash (put pid e l) ≡ true
unfolding is_recorded put
is_recorded-put pid e [] =
    ground (arith, text_eq_iff pid pid, text_eq_iff e.content_hash e.content_hash)
is_recorded-put pid e ((k, f) ∷ l) =
    ground (arith, text_eq_iff e.content_hash e.content_hash, is_recorded-put pid e l)

pub is_recorded-put_other :
    (pid other h : Text) (e : LedgerEntry) (l : Ledger)
    → other ≢ pid
    → is_recorded other h (put pid e l) ≡ is_recorded other h l
unfolding is_recorded put
is_recorded-put_other pid other h e [] k = ground (arith, text_eq_iff pid other)
is_recorded-put_other pid other h e ((j, f) ∷ l) k =
    ground (arith, text_eq_iff j pid, text_eq_iff j other, is_recorded-put_other pid other h e l)

pub delete-put :
    (pid : Text) (e : LedgerEntry) (l : Ledger) → Lacks pid l → delete pid (put pid e l) ≡ l
unfolding delete put Lacks
delete-put pid e [] k = ground (arith, text_eq_iff pid pid)
delete-put pid e ((j, f) ∷ l) k = ground (arith, text_eq_iff j pid, delete-put pid e l)

pub Lacks-put :
    (pid other : Text) (e : LedgerEntry) (l : Ledger)
    → pid ≢ other
    → Lacks other l
    → Lacks other (put pid e l)
unfolding put Lacks
Lacks-put pid other e [] n k = (n, tt)
Lacks-put pid other e ((j, f) ∷ l) n k = elim (Bool-cases (text_eq j pid)) [
  | inl here ↦ rw here k
  | inr later ↦ rw later (k.0, Lacks-put pid other e l n k.1)
]
