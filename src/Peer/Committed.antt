-- ===== src/Peer/Committed.antt =====
-- The committed ledger of a peer and its blockchain.
pub mod Synced
pub mod Mined
pub mod Reached
use pokoinpos.Prelude.{
  ℕ, ◌+◌, Bool, true, false, ◌&&◌, ◌||◌, not, Option, none, some, List, [], ◌∷◌, ◌++◌, ◌≡◌, ◌≢◌,
  refl, sym, subst, if◌then◌else◌, length, map,
}
use pokoinpos.Prelude.Int.{ℤ, pos, ltb_ℤ}
use pokoinpos.Prelude.Run.{
  Run, done, panic, ◌>>=◌, After, After->>=, After-any, After-if, After-option, After-option-known,
  After-return, After-panic, After-self, After-done,
}
use pokoinpos.Text.{Text, text_eq, is_empty}
use pokoinpos.Tx.{SignedTransaction}
use pokoinpos.Crypto.{Account}
use pokoinpos.Genesis.{GenesisMetaData, apply_default_dynamic_hardness_config}
use pokoinpos.Ledger.{Ledger}
use pokoinpos.Chain.Block.{Block}
use pokoinpos.Chain.AddBlock.{add_block, new_blockchain_with_genesis}
use pokoinpos.Chain.State.{ledger_from_blockchain}
use pokoinpos.Chain.Tree.{canonical_blocks, replace_blocks}
use pokoinpos.Peer.{Message, Peer, Wire}
use pokoinpos.Peer.Frame.{Untouched, ask_for_parent-Untouched}
use pokoinpos.Peer.Flood.{has_seen_message, remember}
use pokoinpos.Peer.Mempool.{prune_rounds, prune_invalid_mempool}
use pokoinpos.Peer.Receive.{
  settle_block, include_block, apply_block, ask_for_parent, take_block, handle_block,
}
use pokoinpos.Peer.Connect.{configure_pos, set_finality_depth}
use pokoinpos.Peer.Sync.Install.{install}

module _ (w : Wire) where
  abbrev CommittedOn : Option (List Block) → ℤ → Ledger → Type 0
  CommittedOn none depth l = Unit
  CommittedOn (some chain) depth l = ledger_from_blockchain w.platform chain depth ≡ done l

  -- The ledger of a peer with a blockchain is what that chain computes, less the blocks that are not
  -- final yet.
  abbrev pub IsCommitted : Peer → Type 0
  IsCommitted p = CommittedOn p.blockchain p.finality_depth p.ledger

  pub Untouched-IsCommitted : (p q : Peer) → Untouched p q → IsCommitted p → IsCommitted q
  Untouched-IsCommitted p q (c, d, l, m) h = rw (c, d, l) h

  pub prune-IsCommitted :
      (p : Peer) → IsCommitted p → After (λ r. IsCommitted r.1) (prune_invalid_mempool w p)
  unfolding prune_invalid_mempool
  prune-IsCommitted p h =
      let Q : ℕ × Peer → Type 0 = λ r. IsCommitted r.1 in
      After-option Q p.blockchain _ _ (After-return Q h) (λ chain.
        After-any Q (ledger_from_blockchain w.platform chain (pos 0)) _ (λ l.
          let pending : List SignedTransaction = map (λ e. e.1) p.mempool in
          After-any Q (prune_rounds w (length pending + 1) pending ([], (l, p.mempool))) _
            (λ r. After-return Q h)))

  pub settle_block-IsCommitted :
      (b : Block) (chain : List Block) (p : Peer) → After IsCommitted (settle_block w b chain p)
  unfolding settle_block
  settle_block-IsCommitted b chain p =
      After->>= (λ l. ledger_from_blockchain w.platform chain p.finality_depth ≡ done l) IsCommitted
        (ledger_from_blockchain w.platform chain p.finality_depth) _ (After-self _)
        (λ l e.
          After->>= (λ r. IsCommitted r.1) IsCommitted (prune_invalid_mempool w _) _
            (prune-IsCommitted _ e) (λ r h. After-return IsCommitted h))

  pub apply_block-IsCommitted :
      (b : Block) (p : Peer) → IsCommitted p → After (λ r. IsCommitted r.1) (apply_block w b p)
  unfolding apply_block
  apply_block-IsCommitted b p h =
      let Q : Bool × Peer → Type 0 = λ r. IsCommitted r.1 in
      After-option Q p.blockchain _ _ (After-return Q h) (λ chain.
        After-any Q (add_block w.platform chain b) _ (λ r. After-if Q r.0 _ _ (After-return Q h) (
          After->>= IsCommitted Q (settle_block w b r.1 p) _ (settle_block-IsCommitted b r.1 p)
            (λ p' h'. After-return Q h'))))

  pub take_block-IsCommitted :
      (now : ℤ) (msg : Message) (b : Block) (chain : List Block) (p : Peer)
      → IsCommitted p
      → After (λ r. IsCommitted r.1) (take_block w now msg b chain p)
  unfolding take_block remember
  take_block-IsCommitted now msg b chain p h =
      let Q : Bool × Peer → Type 0 = λ r. IsCommitted r.1 in
      After-any Q (add_block w.platform chain b) _ (λ r.
        After-if Q r.0 _ _
          (After->>= (Untouched p) Q (ask_for_parent w now msg b p) _
            (ask_for_parent-Untouched w now msg b p)
            (λ p' u. After-return Q (Untouched-IsCommitted p p' u h)))
          (After->>= IsCommitted Q (settle_block w b r.1 p) _ (settle_block-IsCommitted b r.1 p)
            (λ p' h'. After-return Q h')))

  pub handle_block-IsCommitted :
      (now : ℤ) (msg : Message) (p : Peer)
      → IsCommitted p
      → After (λ r. IsCommitted r.1) (handle_block w now msg p)
  unfolding handle_block
  handle_block-IsCommitted now msg p h =
      let Q : Bool × Peer → Type 0 = λ r. IsCommitted r.1 in
      After-option Q p.blockchain _ _ (After-return Q h) (λ chain.
        After-option Q (w.unmarshal_block msg.payload) _ _ (After-return Q h) (λ b.
          After-if Q (has_seen_message p msg.msg_id) _ _
            (take_block-IsCommitted now msg b chain p h) (After-return Q h)))

  pub install-IsCommitted :
      (chain blocks : List Block) (p : Peer) → After IsCommitted (install w chain blocks p)
  unfolding install
  install-IsCommitted chain blocks p =
      let replaced = replace_blocks chain blocks in
      After->>= (λ l. ledger_from_blockchain w.platform replaced p.finality_depth ≡ done l)
        IsCommitted (ledger_from_blockchain w.platform replaced p.finality_depth) _ (After-self _)
        (λ l e. After-return IsCommitted e)

  pub configure_pos-IsCommitted :
      (genesis : GenesisMetaData) (miner : Option Account) (p : Peer)
      → After IsCommitted (configure_pos w genesis miner p)
  unfolding configure_pos
  configure_pos-IsCommitted given miner p =
      let genesis = apply_default_dynamic_hardness_config given in
      let chain = new_blockchain_with_genesis w.platform (w.marshal_genesis genesis) in
      After->>= (λ l. ledger_from_blockchain w.platform chain p.finality_depth ≡ done l) IsCommitted
        (ledger_from_blockchain w.platform chain p.finality_depth) _ (After-self _)
        (λ l e. After-return IsCommitted e)

  pub set_finality_depth-IsCommitted :
      (depth : ℤ) (p : Peer) → After IsCommitted (set_finality_depth w depth p)
  unfolding set_finality_depth
  set_finality_depth-IsCommitted given p =
      let depth = if ltb_ℤ given (pos 0) then pos 0 else given in
      After-option-known IsCommitted p.blockchain _ _ (λ e. After-return IsCommitted (rw e tt))
        (λ chain e.
          After->>= (λ l. ledger_from_blockchain w.platform chain depth ≡ done l) IsCommitted
            (ledger_from_blockchain w.platform chain depth) _ (After-self _)
            (λ l h. After-return IsCommitted (rw e h)))
