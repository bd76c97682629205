-- ===== src/Peer/Mempool/Settled.antt =====
-- What a block that a peer has accepted leaves in its mempool.
use pokoinpos.Prelude.{
  ℕ, zero, suc, ◌+◌, ◌≡◌, refl, Bool, true, false, ◌||◌, not, some, List, [], ◌∷◌, map, length,
  arith, if-holds, subst, ◌⊎◌, inl, inr,
}
use pokoinpos.Prelude.Int.{ℤ, pos}
use pokoinpos.Prelude.Run.{
  done, After, After->>=, After-any, After-if, After-option, After-option-known, After-return,
  After-panic, After-done,
}
use pokoinpos.Text.{Text, text_eq_refl}
use pokoinpos.GoMap.{Map, has, at, delete, lookup, lookup-delete}
use pokoinpos.Tx.{SignedTransaction}
use pokoinpos.Transaction.Apply.{transaction}
use pokoinpos.Chain.Block.{Block, decode_block_transactions}
use pokoinpos.Chain.AddBlock.{add_block}
use pokoinpos.Chain.State.{ledger_from_blockchain}
use pokoinpos.Peer.{Message, Peer, Wire}
use pokoinpos.Peer.Flood.{has_seen_message, remember}
use pokoinpos.Peer.Mempool.{
  Kept, Tried, share_payloads, evict, prune_pass, prune_rounds, prune_invalid_mempool,
}
use pokoinpos.Peer.Receive.{
  drop_included, include_block, settle_block, ask_for_parent, take_block, handle_block,
}

-- No pending transaction has an id.
abbrev pub IsOut : Text → Map SignedTransaction → Type 0
IsOut id m = has id m ≡ false

share_payloads-IsOut :
    (id key : Text) (left : SignedTransaction) (m : Map SignedTransaction)
    → IsOut id m
    → IsOut id (share_payloads key left m)
unfolding share_payloads lookup
share_payloads-IsOut id key left [] h = refl
share_payloads-IsOut id key left ((j, t) ∷ m) h =
    ground (arith, h, share_payloads-IsOut id key left m)

delete-IsOut : (id key : Text) (m : Map SignedTransaction) → IsOut id m → IsOut id (delete key m)
delete-IsOut id key m h = ground (arith, h, lookup-delete key id m)

delete-gone : (id : Text) (m : Map SignedTransaction) → IsOut id (delete id m)
delete-gone id m = ground (arith, lookup-delete id id m, text_eq_refl id)

drop_included-IsOut :
    (id : Text) (txs : List SignedTransaction) (m : Map SignedTransaction)
    → IsOut id m
    → IsOut id (drop_included txs m)
unfolding drop_included
drop_included-IsOut id [] m h = h
drop_included-IsOut id (t ∷ ts) m h =
    drop_included-IsOut id ts (delete t.id m) (delete-IsOut id t.id m h)

-- A transaction is one of a list.
abbrev pub IsIn : SignedTransaction → List SignedTransaction → Type 0
IsIn t [] = ⊥
IsIn t (u ∷ us) = (u ≡ t) ⊎ IsIn t us

drop_included-gone :
    (t : SignedTransaction) (txs : List SignedTransaction) (m : Map SignedTransaction)
    → IsIn t txs
    → IsOut t.id (drop_included txs m)
unfolding drop_included
drop_included-gone t [] m h = absurd h
drop_included-gone t (u ∷ us) m (inl e) =
    drop_included-IsOut t.id us (delete u.id m)
      (subst (λ v. IsOut v.id (delete u.id m)) e (delete-gone u.id m))
drop_included-gone t (u ∷ us) m (inr h) = drop_included-gone t us (delete u.id m) h

evict-IsOut :
    (id : Text) (pending : List SignedTransaction) (keep : Kept) (out : Map SignedTransaction × ℕ)
    → IsOut id out.0
    → IsOut id (evict pending keep out).0
unfolding evict
evict-IsOut id [] keep out h = h
evict-IsOut id (t ∷ ts) keep (m, removed) h = evict-IsOut id ts keep _ (
    if-holds {A = Map SignedTransaction × ℕ} (λ o. IsOut id o.0)
      (at false t.id keep || not (has t.id m)) (m, removed) (delete t.id m, removed + 1) h
      (delete-IsOut id t.id m h))

module _ (w : Wire) where
  prune_pass-IsOut :
      (id : Text) (ts : List SignedTransaction) (keep : Kept) (s : Tried) (progress : Bool)
      → IsOut id s.1
      → After (λ r. IsOut id r.1.1) (prune_pass w ts (keep, s, progress))
  unfolding prune_pass
  prune_pass-IsOut id [] keep s progress h = After-return (λ r. IsOut id r.1.1) h
  prune_pass-IsOut id (t ∷ ts) keep (l, m) progress h =
      let Q : Kept × Tried × Bool → Type 0 = λ r. IsOut id r.1.1 in
      After-if Q (at false t.id keep) _ _
        (After-any Q (transaction w.platform t l) _ (λ (ok, left, next).
          let h' = share_payloads-IsOut id t.id left m h in
          if-holds {A = Kept × Tried × Bool} (λ s. After Q (prune_pass w ts s)) ok _ _
            (prune_pass-IsOut id ts _ (next, share_payloads t.id left m) true h')
            (prune_pass-IsOut id ts _ (next, share_payloads t.id left m) progress h')))
        (prune_pass-IsOut id ts keep (l, m) progress h)

  prune_rounds-IsOut :
      (id : Text) (fuel : ℕ) (pending : List SignedTransaction) (keep : Kept) (s : Tried)
      → IsOut id s.1
      → After (λ r. IsOut id r.1.1) (prune_rounds w fuel pending (keep, s))
  unfolding prune_rounds
  prune_rounds-IsOut id zero pending keep s h = After-panic (λ r. IsOut id r.1.1)
  prune_rounds-IsOut id (suc fuel) pending keep s h =
      let Q : Kept × Tried → Type 0 = λ r. IsOut id r.1.1 in
      After->>= (λ r. IsOut id r.1.1) Q (prune_pass w pending (keep, s, false)) _
        (prune_pass-IsOut id pending keep s false h)
        (λ (keep', s', progress) h'.
          After-if Q progress _ _ (After-return Q h')
            (prune_rounds-IsOut id fuel pending keep' s' h'))

  prune_invalid_mempool-IsOut :
      (id : Text) (p : Peer)
      → IsOut id p.mempool
      → After (λ r. IsOut id r.1.mempool) (prune_invalid_mempool w p)
  unfolding prune_invalid_mempool
  prune_invalid_mempool-IsOut id p h =
      let Q : ℕ × Peer → Type 0 = λ r. IsOut id r.1.mempool in
      After-option Q p.blockchain _ _ (After-return Q h) (λ chain.
        After-any Q (ledger_from_blockchain w.platform chain (pos 0)) _ (λ l.
          let pending : List SignedTransaction = map (λ e. e.1) p.mempool in
          After->>= (λ r. IsOut id r.1.1) Q
            (prune_rounds w (length pending + 1) pending ([], (l, p.mempool))) _
            (prune_rounds-IsOut id _ pending [] (l, p.mempool) h)
            (λ r h'. After-return Q (evict-IsOut id pending r.0 (r.1.1, 0) h'))))

  -- A block that includes a transaction.
  abbrev pub Includes : Block → SignedTransaction → Type 0
  Includes b t =
      (txs : List SignedTransaction) × (decode_block_transactions w.platform b.meta_data ≡ some txs)
      × IsIn t txs

  include_block-gone :
      (b : Block) (t : SignedTransaction) (m : Map SignedTransaction)
      → Includes b t
      → IsOut t.id (include_block w b m)
  unfolding include_block
  include_block-gone b t m (txs, e, h) = rw (include_block, e) (drop_included-gone t txs m h)

  settle_block-gone :
      (b : Block) (t : SignedTransaction) (chain : List Block) (p : Peer)
      → Includes b t
      → After (λ q. IsOut t.id q.mempool) (settle_block w b chain p)
  unfolding settle_block
  settle_block-gone b t chain p h =
      let Q : Peer → Type 0 = λ q. IsOut t.id q.mempool in
      After-any Q (ledger_from_blockchain w.platform chain p.finality_depth) _ (λ l.
        After->>= (λ r. IsOut t.id r.1.mempool) Q (prune_invalid_mempool w _) _
          (prune_invalid_mempool-IsOut t.id _ (include_block-gone b t p.mempool h))
          (λ r h'. After-return Q h'))

  -- What handleBlock leaves of a transaction, if it accepts the block.
  abbrev Clears : Text → Bool × Peer → Type 0
  Clears id (false, q) = Unit
  Clears id (true, q) = IsOut id q.mempool

  take_block-Clears :
      (now : ℤ) (msg : Message) (b : Block) (t : SignedTransaction) (chain : List Block) (p : Peer)
      → Includes b t
      → After (Clears t.id) (take_block w now msg b chain p)
  unfolding take_block remember
  take_block-Clears now msg b t chain p h =
      let Q = Clears t.id in
      After-any Q (add_block w.platform chain b) _ (λ r.
        After-if Q r.0 _ _ (After-any Q (ask_for_parent w now msg b p) _ (λ p'. After-return Q tt))
          (After->>= (λ q. IsOut t.id q.mempool) Q (settle_block w b r.1 p) _
            (settle_block-gone b t r.1 p h) (λ q h'. After-return Q h')))

  handle_block-Clears :
      (now : ℤ) (msg : Message) (b : Block) (t : SignedTransaction) (p : Peer)
      → w.unmarshal_block msg.payload ≡ some b
      → Includes b t
      → After (Clears t.id) (handle_block w now msg p)
  unfolding handle_block
  handle_block-Clears now msg b t p read h =
      let Q = Clears t.id in
      After-option Q p.blockchain _ _ (After-return Q tt) (λ chain.
        After-option-known Q (w.unmarshal_block msg.payload) _ _ (λ _. After-return Q tt)
          (λ b' e.
            let same : b ≡ b' = cc in
            After-if Q (has_seen_message p msg.msg_id) _ _
              (take_block-Clears now msg b' t chain p (subst (λ b. Includes b t) same h))
              (After-return Q tt)))

  -- After a peer has accepted a block, no transaction that the block includes is pending there: no entry
  -- of its mempool has the id of one.
  pub handle_block-included :
      (now : ℤ) (msg : Message) (b : Block) (t : SignedTransaction) (txs : List SignedTransaction)
      (p q : Peer)
      → handle_block w now msg p ≡ done (true, q)
      → w.unmarshal_block msg.payload ≡ some b
      → decode_block_transactions w.platform b.meta_data ≡ some txs
      → IsIn t txs
      → has t.id q.mempool ≡ false
  handle_block-included now msg b t txs p q e read decoded h =
      After-done (Clears t.id) (handle_block-Clears now msg b t p read (txs, decoded, h)) e
