-- ===== src/Peer/Mempool/Slots.antt =====
-- Ethereum transactions of one sender with one nonce among the pending transactions.
use pokoinpos.Prelude.{
  ◌≡◌, refl, Bool, false, ◌&&◌, [], ◌∷◌, arith, All, if-holds, Bool-cases, inl, inr,
}
use pokoinpos.Text.{Text, to_lower, text_eq, text_eq_iff, equal_fold}
use pokoinpos.GoMap.{Map, has, insert, delete}
use pokoinpos.Tx.{SignedTransaction, is_evm}
use pokoinpos.Peer.Mempool.{is_same_slot, drop_same_slot, add_pending}

-- Two wallet transactions of which at most one can be in a chain.
abbrev pub conflicts : SignedTransaction → SignedTransaction → Bool
conflicts t u = is_evm t && is_same_slot t u

-- No two pending Ethereum transactions have one sender, up to case, and one nonce.
abbrev pub OneSlot : Map SignedTransaction → Type 0
OneSlot [] = Unit
OneSlot ((id, t) ∷ m) = All (λ e. conflicts t e.1 ≡ false) m × OneSlot m

text_eq_comm : (a b : Text) → text_eq a b ≡ text_eq b a
text_eq_comm a b = ground (arith, text_eq_iff a b, text_eq_iff b a)

equal_fold_comm : (a b : Text) → equal_fold a b ≡ equal_fold b a
unfolding equal_fold
equal_fold_comm a b = text_eq_comm (to_lower a) (to_lower b)

conflicts_comm : (t u : SignedTransaction) → conflicts t u ≡ false → conflicts u t ≡ false
unfolding is_same_slot
conflicts_comm t u h = ground (arith, equal_fold_comm t.from u.from)

-- A deletion keeps what holds of the entries that stay.
delete-All :
    (P : Text × SignedTransaction → Type 0) (k : Text) (m : Map SignedTransaction)
    → All P m
    → All P (delete k m)
unfolding delete
delete-All P k [] h = tt
delete-All P k (e ∷ m) (p, h) =
    if-holds (All P) (text_eq e.0 k) (delete k m) (e ∷ delete k m) (delete-All P k m h)
      (p, delete-All P k m h)

pub delete-OneSlot : (k : Text) (m : Map SignedTransaction) → OneSlot m → OneSlot (delete k m)
unfolding delete
delete-OneSlot k [] h = tt
delete-OneSlot k (e ∷ m) (a, h) =
    if-holds OneSlot (text_eq e.0 k) (delete k m) (e ∷ delete k m) (delete-OneSlot k m h)
      (delete-All (λ f. conflicts e.1 f.1 ≡ false) k m a, delete-OneSlot k m h)

insert-All :
    (P : Text × SignedTransaction → Type 0) (k : Text) (t : SignedTransaction)
    (m : Map SignedTransaction)
    → ((j : Text) → P (j, t))
    → All P m
    → All P (insert k t m)
unfolding insert
insert-All P k t [] p h = (p k, tt)
insert-All P k t (e ∷ m) p (q, h) =
    if-holds (All P) (text_eq e.0 k) ((e.0, t) ∷ m) (e ∷ insert k t m) (p e.0, h)
      (q, insert-All P k t m p h)

All-map :
    {P Q : Text × SignedTransaction → Type 0} (m : Map SignedTransaction)
    → ((e : Text × SignedTransaction) → P e → Q e)
    → All P m
    → All Q m
All-map [] f h = tt
All-map (e ∷ m) f (p, h) = (f e p, All-map m f h)

insert-OneSlot :
    (k : Text) (t : SignedTransaction) (m : Map SignedTransaction)
    → All (λ e. conflicts t e.1 ≡ false) m
    → OneSlot m
    → OneSlot (insert k t m)
unfolding insert
insert-OneSlot k t [] free h = (tt, tt)
insert-OneSlot k t (e ∷ m) (c, free) (a, h) =
    if-holds OneSlot (text_eq e.0 k) ((e.0, t) ∷ m) (e ∷ insert k t m) (free, h)
      (
        insert-All (λ f. conflicts e.1 f.1 ≡ false) k t m (λ j. conflicts_comm t e.1 c) a,
        insert-OneSlot k t m free h,
      )

drop-All :
    (P : Text × SignedTransaction → Type 0) (t : SignedTransaction) (m : Map SignedTransaction)
    → All P m
    → All P (drop_same_slot t m)
unfolding drop_same_slot
drop-All P t [] h = tt
drop-All P t (e ∷ m) (p, h) =
    if-holds (All P) (is_same_slot t e.1) (drop_same_slot t m) (e ∷ drop_same_slot t m)
      (drop-All P t m h) (p, drop-All P t m h)

drop-OneSlot :
    (t : SignedTransaction) (m : Map SignedTransaction) → OneSlot m → OneSlot (drop_same_slot t m)
unfolding drop_same_slot
drop-OneSlot t [] h = tt
drop-OneSlot t (e ∷ m) (a, h) =
    if-holds OneSlot (is_same_slot t e.1) (drop_same_slot t m) (e ∷ drop_same_slot t m)
      (drop-OneSlot t m h) (drop-All (λ f. conflicts e.1 f.1 ≡ false) t m a, drop-OneSlot t m h)

and-false : (a : Bool) {b : Bool} → b ≡ false → (a && b) ≡ false
and-false a h = ground (arith, h)

drop-free :
    (t : SignedTransaction) (m : Map SignedTransaction)
    → All (λ e. conflicts t e.1 ≡ false) (drop_same_slot t m)
unfolding drop_same_slot
drop-free t [] = tt
drop-free t (e ∷ m) = elim (Bool-cases (is_same_slot t e.1)) [
  | inl s ↦ rw s (drop-free t m)
  | inr n ↦ rw n (and-false (is_evm t) n, drop-free t m)
]

-- A transaction that is not Ethereum's conflicts with none.
native-free :
    (t : SignedTransaction) (m : Map SignedTransaction)
    → is_evm t ≡ false
    → All (λ e. conflicts t e.1 ≡ false) m
native-free t [] n = tt
native-free t (e ∷ m) n = (rw n refl, native-free t m n)

pub add_pending-OneSlot :
    (t : SignedTransaction) (m : Map SignedTransaction) → OneSlot m → OneSlot (add_pending t m)
unfolding add_pending
add_pending-OneSlot t m h = if-holds OneSlot (has t.id m) m _ h (elim (Bool-cases (is_evm t)) [
  | inl e ↦ rw e (insert-OneSlot t.id t (drop_same_slot t m) (drop-free t m) (drop-OneSlot t m h))
  | inr n ↦ rw n (insert-OneSlot t.id t m (native-free t m n) h)
])
