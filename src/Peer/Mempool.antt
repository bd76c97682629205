-- ===== src/Peer/Mempool.antt =====
-- The transactions that wait for a block: admission, replacement and pruning. A copy of a transaction
-- shares its payloads with the entry of the mempool, and `share_payloads` writes there what Verify and
-- Transaction leave of them.
pub mod Slots
pub mod Orderly
pub mod Prune
pub mod Payloads
pub mod Settled
use pokoinpos.Prelude.{
  ℕ, zero, suc, ◌+◌, ◌%◌, ◌^◌, Bool, true, false, ◌&&◌, ◌||◌, not, none, some, List, [], ◌∷◌, map,
  if◌then◌else◌, length, leb, ◌==◌,
}
use pokoinpos.Prelude.Int.{pos, ltb_ℤ}
use pokoinpos.Prelude.Run.{Run, done, panic, ◌>>=◌}
use pokoinpos.Text.{Text, text_eq, equal_fold}
use pokoinpos.GoMap.{Map, has, at, insert, delete}
use pokoinpos.Tx.{SignedTransaction, is_evm, is_nft, is_amm}
use pokoinpos.Ledger.{Ledger, get_nonce}
use pokoinpos.Transaction.Apply.{transaction}
use pokoinpos.Transaction.Verify.{verify}
use pokoinpos.Chain.State.{ledger_from_blockchain}
use pokoinpos.Peer.{Message, Peer, Wire}
use pokoinpos.Peer.Flood.{has_seen_message, remember}

-- A pending transaction of the same wallet with the same nonce.
unfoldable pub is_same_slot : SignedTransaction → SignedTransaction → Bool
is_same_slot t pending =
    is_evm pending && equal_fold pending.from t.from && (pending.nonce == t.nonce)

-- The loop that deletes them. Go's range reads the entries of the map that is not yet deleted.
unfoldable pub drop_same_slot : SignedTransaction → Map SignedTransaction → Map SignedTransaction
drop_same_slot t [] = []
drop_same_slot t ((id, pending) ∷ rest) =
    let kept = drop_same_slot t rest in
    if is_same_slot t pending then kept else (id, pending) ∷ kept

-- The block `if !exists { … }` of handlePoSTransaction.
unfoldable pub add_pending : SignedTransaction → Map SignedTransaction → Map SignedTransaction
add_pending t mempool =
    if has t.id mempool
    then mempool
    else insert t.id t (if is_evm t then drop_same_slot t mempool else mempool)

unfoldable pub mempool_size : Peer → ℕ
mempool_size p = length p.mempool

-- The loop of PendingNonceOf.
unfoldable pub next_nonce : Text → Map SignedTransaction → ℕ → ℕ
next_nonce account [] nonce = nonce
next_nonce account ((id, t) ∷ rest) nonce = next_nonce account rest (
    if is_evm t && equal_fold t.from account && leb nonce t.nonce
    then (t.nonce + 1) % 2 ^ 64
    else nonce)

-- The loops of pruneInvalidMempool keep the ids of the transactions that were applied, in a map.
abbrev pub Kept : Type 0
Kept = Map Bool

-- Whether the cheap test on the amount refuses a transaction.
unfoldable pub refuses_amount : SignedTransaction → Bool
refuses_amount t =
    ltb_ℤ t.amount (pos 0)
    || (not (is_evm t) && not (is_nft t) && not (is_amm t) && ltb_ℤ t.amount (pos 1))

-- The loop that deletes the transactions that are not kept, and counts them.
unfoldable pub evict :
    List SignedTransaction → Kept → Map SignedTransaction × ℕ → Map SignedTransaction × ℕ
evict [] keep out = out
evict (t ∷ ts) keep (mempool, removed) = evict ts keep (
    if at false t.id keep || not (has t.id mempool)
    then (mempool, removed)
    else (delete t.id mempool, removed + 1))

-- What Transaction leaves of the payloads of `candidate := tx`: the copy of the struct points to the NFT
-- and AMM payloads that the entry of the mempool under its id points to.
unfoldable pub share_payloads :
    Text → SignedTransaction → Map SignedTransaction → Map SignedTransaction
share_payloads key left [] = []
share_payloads key left ((id, t) ∷ rest) =
    if text_eq id key
    then (id, record t { nft = left.nft; amm = left.amm }) ∷ rest
    else (id, t) ∷ share_payloads key left rest

-- What the candidates are applied to, and the mempool that they share their payloads with.
abbrev pub Tried : Type 0
Tried = Ledger × Map SignedTransaction

module _ (w : Wire) where
  -- One pass over the pending transactions: the ids that are kept, the ledger, the mempool and
  -- `progress`. A candidate that an earlier pass has tried is applied with the payloads that it had at
  -- first: Transaction normalises them before it reads them, and writes AmountOut before it reads it.
  unfoldable pub prune_pass :
      List SignedTransaction → Kept × Tried × Bool → Run (Kept × Tried × Bool)
  prune_pass [] s = done s
  prune_pass (t ∷ ts) (keep, (l, mempool), progress) = elim (at false t.id keep) [
    | true ↦ prune_pass ts (keep, (l, mempool), progress)
    | false ↦ do
      (ok, left, next) ← transaction w.platform t l
      let tried : Tried = (next, share_payloads t.id left mempool)
      prune_pass ts (if ok then (insert t.id true keep, tried, true) else (keep, tried, progress))
  ]

  -- `for progress { … }`
  unfoldable pub prune_rounds : ℕ → List SignedTransaction → Kept × Tried → Run (Kept × Tried)
  prune_rounds zero pending s = panic
  prune_rounds (suc fuel) pending (keep, s) = do
    (keep', s', progress) ← prune_pass pending (keep, s, false)
    elim progress [ false ↦ done (keep', s') | true ↦ prune_rounds fuel pending (keep', s') ]

  unfoldable pub prune_invalid_mempool : Peer → Run (ℕ × Peer)
  prune_invalid_mempool p = elim p.blockchain [
    | none ↦ done (0, p)
    | some chain ↦ do
      l ← ledger_from_blockchain w.platform chain (pos 0)
      let pending : List SignedTransaction = map (λ e. e.1) p.mempool
      (keep, tried) ← prune_rounds (length pending + 1) pending ([], (l, p.mempool))
      let (mempool, removed) = evict pending keep (tried.1, 0)
      done (removed, record p { mempool = mempool })
  ]

  -- The transaction as it is left, since Verify and Transaction may normalise it and set AmountOut; a
  -- caller whose copy shares payloads with the mempool writes them there.
  unfoldable pub best_ledger_would_accept :
      SignedTransaction → Peer → Run (Bool × SignedTransaction)
  best_ledger_would_accept t p = elim p.blockchain [
    | none ↦ done (false, t)
    | some chain ↦ do
      l ← ledger_from_blockchain w.platform chain (pos 0)
      (ok, t', l') ← transaction w.platform t l
      done (ok, t')
  ]

  -- The second half of handlePoSTransaction, under the flooding lock.
  unfoldable pub admit : Message → SignedTransaction → Peer → Bool × Peer
  admit msg t p =
      if has_seen_message p msg.msg_id
      then (false, p)
      else (not (has t.id p.mempool), remember msg (record p { mempool = add_pending t p.mempool }))

  -- The test of the ledger, for AMM transactions only, and the admission.
  unfoldable pub judge : Message → SignedTransaction → Peer → Run (Bool × Peer)
  judge msg t p = elim (is_amm t) [
    | false ↦ done (admit msg t p)
    | true ↦ do
      (ok, t') ← best_ledger_would_accept t p
      elim ok [ false ↦ done (false, p) | true ↦ done (admit msg t' p) ]
  ]

  unfoldable pub handle_pos_transaction : Message → Peer → Run (Bool × Peer)
  handle_pos_transaction msg p = elim (w.unmarshal_transaction msg.payload) [
    | none ↦ done (false, p)
    | some t ↦ elim (refuses_amount t) [
      | true ↦ done (false, p)
      | false ↦ do
        (ok, t') ← verify w.platform t t.from
        elim ok [ false ↦ done (false, p) | true ↦ judge msg t' p ]
    ]
  ]

  unfoldable pub best_nonce_of : Peer → Text → Run ℕ
  best_nonce_of p account = elim p.blockchain [
    | none ↦ done 0
    | some chain ↦ do
      l ← ledger_from_blockchain w.platform chain (pos 0)
      done (get_nonce l account)
  ]

  unfoldable pub pending_nonce_of : Peer → Text → Run ℕ
  pending_nonce_of p account = do
    nonce ← best_nonce_of p account
    done (next_nonce account p.mempool nonce)
