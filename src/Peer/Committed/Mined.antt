-- ===== src/Peer/Committed/Mined.antt =====
-- Transactions for a block, mining, and the committed ledger.
use pokoinpos.Prelude.{if-holds, Bool, false, Option, List, map, length}
use pokoinpos.Prelude.Int.{ℤ, pos, leb_ℤ}
use pokoinpos.Prelude.Run.{
  After, After->>=, After-any, After-if, After-option, After-return, After-map,
}
use pokoinpos.Text.{Text}
use pokoinpos.Tx.{SignedTransaction, is_amm}
use pokoinpos.Transaction.Verify.{verify}
use pokoinpos.Crypto.{Account}
use pokoinpos.Genesis.{GenesisMetaData}
use pokoinpos.Chain.Block.{
  Block, block_size, wins_lottery, sign_lottery_proof, compute_lottery_draw_from_proof,
}
use pokoinpos.Chain.Hardness.{effective_hardness_for_mining}
use pokoinpos.Chain.Tree.{canonical_blocks, best_leaf_hash}
use pokoinpos.Chain.State.{ledger_from_blockchain}
use pokoinpos.Peer.{Message, Peer, Wire}
use pokoinpos.Peer.Flood.{flood_network, has_seen_message, remember}
use pokoinpos.Peer.Frame.{Untouched, flood_network-Untouched}
use pokoinpos.Peer.Mempool.{
  refuses_amount, prune_invalid_mempool, best_ledger_would_accept, admit, judge,
  handle_pos_transaction,
}
use pokoinpos.Peer.Mine.{
  optimistic_lottery_hardness, validator_stake, select_transactions, block_message, publish,
  try_candidate, build_candidate, draw_lottery, mine_one_slot, count_attempt, count_mined,
}
use pokoinpos.Peer.Receive.{apply_block}
use pokoinpos.Peer.Make.{pos_message, flood_pos_transaction}
use pokoinpos.Peer.Committed.{
  IsCommitted, Untouched-IsCommitted, prune-IsCommitted, apply_block-IsCommitted,
}

module _ (w : Wire) where
  admit-IsCommitted :
      (msg : Message) (t : SignedTransaction) (p : Peer)
      → IsCommitted w p
      → IsCommitted w (admit w msg t p).1
  unfolding admit remember
  admit-IsCommitted msg t p h =
      if-holds {A = Bool × Peer} (λ r. IsCommitted w r.1) (has_seen_message p msg.msg_id) (false, p)
        _ h h

  pub handle_pos-IsCommitted :
      (msg : Message) (p : Peer)
      → IsCommitted w p
      → After (λ r. IsCommitted w r.1) (handle_pos_transaction w msg p)
  unfolding handle_pos_transaction judge
  handle_pos-IsCommitted msg p h =
      let Q : Bool × Peer → Type 0 = λ r. IsCommitted w r.1 in
      After-option Q (w.unmarshal_transaction msg.payload) _ _ (After-return Q h) (λ t.
        After-if Q (refuses_amount t) _ _
          (After-any Q (verify w.platform t t.from) _ (λ r. After-if Q r.0 _ _ (After-return Q h) (
            After-if Q (is_amm r.1) _ _ (After-return Q (admit-IsCommitted msg r.1 p h)) (
              After-any Q (best_ledger_would_accept w r.1 p) _ (λ s.
                After-if Q s.0 _ _ (After-return Q h)
                  (After-return Q (admit-IsCommitted msg s.1 p h)))))))
          (After-return Q h))

  pub flood-IsCommitted :
      (msg : Message) (p : Peer) → IsCommitted w p → After (IsCommitted w) (flood_network msg p)
  flood-IsCommitted msg p h =
      After-map (Untouched p) (IsCommitted w) (flood_network msg p) (flood_network-Untouched msg p)
        (λ q u. Untouched-IsCommitted w p q u h)

  publish-IsCommitted :
      (b : Block) (p : Peer) → IsCommitted w p → After (λ r. IsCommitted w r.1) (publish w b p)
  unfolding publish
  publish-IsCommitted b p h =
      let Q : Option Block × Peer → Type 0 = λ r. IsCommitted w r.1 in
      After->>= (λ r. IsCommitted w r.1) Q (apply_block w b p) _ (apply_block-IsCommitted w b p h)
        (λ r h'. After-if Q r.0 _ _ (After-return Q h') (
          After->>= (IsCommitted w) Q (flood_network (block_message w b p) (count_mined r.1)) _
            (flood-IsCommitted (block_message w b p) (count_mined r.1) h')
            (λ q h''. After-return Q h'')))

  try-IsCommitted :
      (slot : ℤ) (miner : Account) (genesis : GenesisMetaData) (draw tickets : ℤ)
      (parents : List Block) (hash : Text) (selected : List SignedTransaction) (p : Peer)
      → IsCommitted w p
      → After
          (λ r. IsCommitted w r.1)
          (try_candidate w slot miner genesis draw tickets parents hash selected p)
  unfolding try_candidate
  try-IsCommitted slot miner genesis draw tickets parents hash selected p h =
      let Q : Option Block × Peer → Type 0 = λ r. IsCommitted w r.1 in
      After-if Q
        (wins_lottery tickets (effective_hardness_for_mining parents genesis (length selected))
          draw)
        _ _ (After-return Q h) (publish-IsCommitted _ _ h)

  build-IsCommitted :
      (slot : ℤ) (miner : Account) (genesis : GenesisMetaData) (draw tickets : ℤ)
      (chain : List Block) (p : Peer)
      → IsCommitted w p
      → After (λ r. IsCommitted w r.1) (build_candidate w slot miner genesis draw tickets chain p)
  unfolding build_candidate
  build-IsCommitted slot miner genesis draw tickets chain p h =
      let Q : Option Block × Peer → Type 0 = λ r. IsCommitted w r.1 in
      After-any Q (canonical_blocks w.platform chain (pos 0)) _ (λ parents.
        After-any Q (ledger_from_blockchain w.platform chain (pos 0)) _ (λ l.
          After-any Q (best_leaf_hash w.platform chain) _ (λ hash.
            After->>= (λ r. IsCommitted w r.1) Q (prune_invalid_mempool w p) _
              (prune-IsCommitted w p h)
              (λ r h'.
                After-any Q
                  (select_transactions w block_size (map (λ e. e.1) r.1.mempool) (l, r.1.mempool)) _
                  (λ selected.
                    try-IsCommitted slot miner genesis draw tickets parents hash selected.0
                      (record r.1 { mempool = selected.1 }) h')))))

  draw-IsCommitted :
      (slot : ℤ) (miner : Account) (genesis : GenesisMetaData) (chain : List Block) (p : Peer)
      → IsCommitted w p
      → After (λ r. IsCommitted w r.1) (draw_lottery w slot miner genesis chain p)
  unfolding draw_lottery
  draw-IsCommitted slot miner genesis chain p h =
      let Q : Option Block × Peer → Type 0 = λ r. IsCommitted w r.1 in
      let proof = sign_lottery_proof w.platform genesis.seed slot miner in
      After-option Q (compute_lottery_draw_from_proof w.platform proof) _ _ (After-return Q h)
        (λ draw.
          After-if Q (leb_ℤ (validator_stake p) (pos 0)) _ _
            (After-if Q (wins_lottery (validator_stake p) (optimistic_lottery_hardness p) draw) _ _
              (After-return Q h) (build-IsCommitted slot miner genesis draw _ chain p h))
            (After-return Q h))

  pub mine-IsCommitted :
      (slot : ℤ) (p : Peer)
      → IsCommitted w p
      → After (λ r. IsCommitted w r.1) (mine_one_slot w slot p)
  unfolding mine_one_slot
  mine-IsCommitted slot p h =
      let Q : Option Block × Peer → Type 0 = λ r. IsCommitted w r.1 in
      After-option Q p.blockchain _ _ (After-return Q h) (λ chain.
        After-option Q p.miner _ _ (After-return Q h) (λ miner.
          After-option Q p.genesis _ _ (After-return Q h)
            (λ genesis. draw-IsCommitted slot miner genesis chain (count_attempt p) h)))

  pub flood_pos-IsCommitted :
      (t : SignedTransaction) (p : Peer)
      → IsCommitted w p
      → After (IsCommitted w) (flood_pos_transaction w t p)
  unfolding flood_pos_transaction
  flood_pos-IsCommitted t p h =
      After->>= (λ r. IsCommitted w r.1) (IsCommitted w)
        (handle_pos_transaction w (pos_message w t p) p) _
        (handle_pos-IsCommitted (pos_message w t p) p h)
        (λ r h'.
          After-if (IsCommitted w) r.0 _ _ (After-return (IsCommitted w) h')
            (flood-IsCommitted (pos_message w t p) r.1 h'))
