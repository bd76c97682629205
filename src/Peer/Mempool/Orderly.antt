-- ===== src/Peer/Mempool/Orderly.antt =====
-- The handler that takes a transaction into the mempool, and the senders' nonces there.
use pokoinpos.Prelude.{◌≡◌, Bool, false, if-holds}
use pokoinpos.Prelude.Run.{done, After, After-any, After-if, After-option, After-return, After-done}
use pokoinpos.Tx.{SignedTransaction, is_amm}
use pokoinpos.Transaction.Verify.{verify}
use pokoinpos.Peer.Mempool.Slots.{OneSlot, add_pending-OneSlot}
use pokoinpos.Peer.{Message, Peer, Wire}
use pokoinpos.Peer.Flood.{has_seen_message, remember}
use pokoinpos.Peer.Mempool.{
  best_ledger_would_accept, refuses_amount, admit, judge, handle_pos_transaction,
}

module _ (w : Wire) where
  -- The pending transactions of a peer.
  abbrev pub IsOrderly : Peer → Type 0
  IsOrderly p = OneSlot p.mempool

  admit-IsOrderly :
      (msg : Message) (t : SignedTransaction) (p : Peer)
      → IsOrderly p
      → IsOrderly (admit w msg t p).1
  unfolding admit remember
  admit-IsOrderly msg t p h =
      if-holds {A = Bool × Peer} (λ r. OneSlot r.1.mempool) (has_seen_message p msg.msg_id)
        (false, p) _ h (add_pending-OneSlot t p.mempool h)

  pos_lem :
      (msg : Message) (p : Peer)
      → IsOrderly p
      → After (λ r. IsOrderly r.1) (handle_pos_transaction w msg p)
  unfolding handle_pos_transaction judge
  pos_lem msg p h =
      let Q : Bool × Peer → Type 0 = λ r. IsOrderly r.1 in
      After-option Q (w.unmarshal_transaction msg.payload) _ _ (After-return Q h) (λ t.
        After-if Q (refuses_amount t) _ _
          (After-any Q (verify w.platform t t.from) _ (λ r. After-if Q r.0 _ _ (After-return Q h) (
            After-if Q (is_amm r.1) _ _ (After-return Q (admit-IsOrderly msg r.1 p h)) (
              After-any Q (best_ledger_would_accept w r.1 p) _ (λ s.
                After-if Q s.0 _ _ (After-return Q h)
                  (After-return Q (admit-IsOrderly msg s.1 p h)))))))
          (After-return Q h))

  -- If no two pending Ethereum transactions of a peer have one sender, up to case, and one nonce, this
  -- still holds after the peer has handled a transaction for a block, whether it takes it or not.
  pub handle_pos_transaction-OneSlot :
      (msg : Message) (p q : Peer) (ok : Bool)
      → OneSlot p.mempool
      → handle_pos_transaction w msg p ≡ done (ok, q)
      → OneSlot q.mempool
  handle_pos_transaction-OneSlot msg p q ok h e =
      After-done (λ r. IsOrderly r.1) (pos_lem msg p h) e
