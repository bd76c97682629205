-- ===== src/Peer/Receive/Once.antt =====
-- A block or a legacy transaction that a peer has taken in, when it comes again.
use pokoinpos.Prelude.{
  ◌≡◌, refl, ap, ◌∙◌, Bool, true, false, ◌||◌, List, if-holds, Option-cases, inl, inr, arith,
}
use pokoinpos.Prelude.Int.{ℤ}
use pokoinpos.Prelude.Run.{
  done, After, After-any, After-if, After-option, After-return, After-done, on-true, on-some,
  on-none,
}
use pokoinpos.Text.{text_eq_refl}
use pokoinpos.GoMap.{lookup-insert}
use pokoinpos.Transaction.Apply.{transaction}
use pokoinpos.Transaction.Make.{has_recorded_transaction}
use pokoinpos.Chain.Block.{Block}
use pokoinpos.Chain.AddBlock.{add_block}
use pokoinpos.Peer.{Message, Peer, Wire, first_seen}
use pokoinpos.Peer.Flood.{has_seen_message, remember}
use pokoinpos.Peer.Receive.Kept.{IsKept}
use pokoinpos.Peer.Receive.{
  settle_block, ask_for_parent, take_block, handle_block, handle_transaction,
}

remember-has_seen : (msg : Message) (p : Peer) → has_seen_message (remember msg p) msg.msg_id ≡ true
unfolding has_seen_message remember
remember-has_seen msg p = ground (
  arith,
  lookup-insert msg.msg_id msg.msg_id (first_seen msg) p.msg_history,
  text_eq_refl msg.msg_id,
)

-- A message that was accepted is in the history.
abbrev Noted : Message → Bool × Peer → Type 0
Noted msg (false, q) = Unit
Noted msg (true, q) = has_seen_message q msg.msg_id ≡ true

module _ (w : Wire) where
  take_block-Noted :
      (now : ℤ) (msg : Message) (b : Block) (chain : List Block) (p : Peer)
      → After (Noted msg) (take_block w now msg b chain p)
  unfolding take_block
  take_block-Noted now msg b chain p = After-any (Noted msg) (add_block w.platform chain b) _ (λ r.
      After-if (Noted msg) r.0 _ _
        (After-any (Noted msg) (ask_for_parent w now msg b p) _ (λ p'. After-return (Noted msg) tt))
        (After-any (Noted msg) (settle_block w b r.1 p) _
          (λ p'. After-return (Noted msg) (remember-has_seen msg p'))))

  handle_block-Noted :
      (now : ℤ) (msg : Message) (p : Peer) → After (Noted msg) (handle_block w now msg p)
  unfolding handle_block
  handle_block-Noted now msg p =
      After-option (Noted msg) p.blockchain _ _ (After-return (Noted msg) tt) (λ chain.
        After-option (Noted msg) (w.unmarshal_block msg.payload) _ _ (After-return (Noted msg) tt)
          (λ b.
            After-if (Noted msg) (has_seen_message p msg.msg_id) _ _
              (take_block-Noted now msg b chain p) (After-return (Noted msg) tt)))

  handle_transaction-Noted :
      (msg : Message) (p : Peer) → After (Noted msg) (handle_transaction w msg p)
  unfolding handle_transaction
  handle_transaction-Noted msg p =
      After-option (Noted msg) (w.unmarshal_transaction msg.payload) _ _
        (After-return (Noted msg) tt)
        (λ t.
          After-if (Noted msg)
            (has_seen_message p msg.msg_id || has_recorded_transaction p.ledger t) _ _
            (After-any (Noted msg) (transaction w.platform t p.ledger) _ (λ r.
              After-return (Noted msg) (if-holds (Noted msg) r.0 _ _ (remember-has_seen msg _) tt)))
            (After-return (Noted msg) tt))

  block_seen :
      (now : ℤ) (msg : Message) (p : Peer)
      → has_seen_message p msg.msg_id ≡ true
      → handle_block w now msg p ≡ done (false, p)
  unfolding handle_block
  block_seen now msg p seen = elim (Option-cases p.blockchain) [
    | inl e ↦ on-none _ _ e refl
    | inr (chain, e) ↦ on-some _ _ e (elim (Option-cases (w.unmarshal_block msg.payload)) [
      | inl e' ↦ on-none _ _ e' refl
      | inr (b, e') ↦ on-some _ _ e' (on-true _ _ seen refl)
    ])
  ]

  or-true : {a : Bool} (b : Bool) → a ≡ true → (a || b) ≡ true
  or-true b h = ground (arith, h)

  transaction_seen :
      (msg : Message) (p : Peer)
      → has_seen_message p msg.msg_id ≡ true
      → handle_transaction w msg p ≡ done (false, p)
  unfolding handle_transaction
  transaction_seen msg p seen = elim (Option-cases (w.unmarshal_transaction msg.payload)) [
    | inl e ↦ on-none _ _ e refl
    | inr (t, e) ↦ on-some _ _ e (on-true _ _ (or-true _ seen) refl)
  ]

  -- After a peer has accepted a block, handleBlock refuses any message with the same id in every state in
  -- which each message that is in the history then is still there, whatever the clock and the rest of
  -- that state: the peer stays as it is.
  pub handle_block_once :
      (now later : ℤ) (msg again : Message) (p q q' : Peer)
      → handle_block w now msg p ≡ done (true, q)
      → again.msg_id ≡ msg.msg_id
      → IsKept q q'
      → handle_block w later again q' ≡ done (false, q')
  handle_block_once now later msg again p q q' e same keeps = block_seen later again q' (
      keeps again.msg_id
        (ap (has_seen_message q) same ∙ After-done (Noted msg) (handle_block-Noted now msg p) e))

  -- A legacy transaction that a peer has accepted is ignored when a message with the same id brings it
  -- again: the ledger and the rest of the peer stay as they are.
  pub handle_transaction_once :
      (msg again : Message) (p q : Peer)
      → handle_transaction w msg p ≡ done (true, q)
      → again.msg_id ≡ msg.msg_id
      → handle_transaction w again q ≡ done (false, q)
  handle_transaction_once msg again p q e same =
      transaction_seen again q
        (ap (has_seen_message q) same ∙ After-done (Noted msg) (handle_transaction-Noted msg p) e)
