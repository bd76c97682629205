-- ===== src/Peer/Mine/Accepted.antt =====
-- What MineOneSlot puts into a block, and what becomes of the block.
use pokoinpos.Prelude.{
  ℕ, zero, suc, ◌+◌, ◌≤◌, ◌≡◌, refl, sym, ◌∙◌, Bool, true, false, Option, none, some, List, [], ◌∷◌,
  map, length, arith,
}
use pokoinpos.Prelude.Int.{ℤ, pos, leb_ℤ}
use pokoinpos.Prelude.Run.{
  done, ◌>>=◌, After, After->>=, After-any, After-if, After-option, After-option-known,
  After-return, After-done, After-self,
}
use pokoinpos.Tx.{SignedTransaction}
use pokoinpos.Crypto.{Account}
use pokoinpos.Genesis.{GenesisMetaData}
use pokoinpos.Transaction.Apply.{transaction}
use pokoinpos.Chain.Block.{
  Block, block_size, wins_lottery, sign_lottery_proof, compute_lottery_draw_from_proof,
}
use pokoinpos.Chain.AddBlock.{add_block}
use pokoinpos.Chain.State.{ledger_from_blockchain}
use pokoinpos.Chain.Hardness.{effective_hardness_for_mining}
use pokoinpos.Chain.Tree.{canonical_blocks, best_leaf_hash}
use pokoinpos.Peer.{Peer, Wire}
use pokoinpos.Peer.Flood.{flood_network}
use pokoinpos.Peer.Frame.{Untouched, flood_network-Untouched}
use pokoinpos.GoMap.{Map}
use pokoinpos.Peer.Mempool.{Tried, share_payloads, prune_rounds, prune_invalid_mempool}
use pokoinpos.Peer.Receive.{settle_block, apply_block}
use pokoinpos.Peer.Mine.{
  select_transactions, block_message, publish, try_candidate, build_candidate, draw_lottery,
  mine_one_slot, validator_stake, optimistic_lottery_hardness, count_attempt, count_mined,
}

-- A number of transactions that a block has room for.
abbrev AtMost : ℕ → List SignedTransaction × Map SignedTransaction → Type 0
AtMost n r = length r.0 ≤ n

module _ (w : Wire) where
  select_lem :
      (room : ℕ) (ts : List SignedTransaction) (s : Tried)
      → After (AtMost room) (select_transactions w room ts s)
  unfolding select_transactions
  select_lem room [] (l, mempool) = After-return (AtMost room) (omega arith)
  select_lem zero (t ∷ ts) (l, mempool) = After-return (AtMost zero) (omega arith)
  select_lem (suc room) (t ∷ ts) (l, mempool) =
      After-any (AtMost (suc room)) (transaction w.platform t l) _ (λ r.
        let tried : Tried = (r.2, share_payloads t.id r.1 mempool) in
        After-if (AtMost (suc room)) r.0 _ _ (select_lem (suc room) ts tried) (
          After->>= (AtMost room) (AtMost (suc room)) (select_transactions w room ts tried) _
            (select_lem room ts tried)
            (λ rest h. After-return (AtMost (suc room)) (omega (arith, h)))))

  -- The transactions that MineOneSlot selects from the mempool are at most sixteen.
  pub select_transactions-bound :
      (ts selected : List SignedTransaction) (s : Tried) (shared : Map SignedTransaction)
      → select_transactions w block_size ts s ≡ done (selected, shared)
      → length selected ≤ 16
  select_transactions-bound ts selected s shared e = After-done (AtMost 16) (select_lem 16 ts s) e

  -- AddBlock has accepted a block on a chain that a peer had before, and it has the chain with it now.
  pub record Extends (b : Block) (before : Option (List Block)) (q : Peer) : Type 0 where
    pub chain : List Block
    pub grown : List Block
    pub had : before ≡ some chain
    pub accepted : add_block w.platform chain b ≡ done (true, grown)
    pub has_now : q.blockchain ≡ some grown

  abbrev Applied : Block → Peer → Bool × Peer → Type 0
  Applied b p (false, q) = Unit
  Applied b p (true, q) = Extends b p.blockchain q

  prune_lem : (p : Peer) → After (λ r. r.1.blockchain ≡ p.blockchain) (prune_invalid_mempool w p)
  unfolding prune_invalid_mempool
  prune_lem p =
      let Q : ℕ × Peer → Type 0 = λ r. r.1.blockchain ≡ p.blockchain in
      After-option Q p.blockchain _ _ (After-return Q refl) (λ chain.
        After-any Q (ledger_from_blockchain w.platform chain (pos 0)) _ (λ l.
          let pending : List SignedTransaction = map (λ e. e.1) p.mempool in
          After-any Q (prune_rounds w (length pending + 1) pending ([], (l, p.mempool))) _
            (λ r. After-return Q refl)))

  settle_lem :
      (b : Block) (chain : List Block) (p : Peer)
      → After (λ q. q.blockchain ≡ some chain) (settle_block w b chain p)
  unfolding settle_block
  settle_lem b chain p =
      let Q : Peer → Type 0 = λ q. q.blockchain ≡ some chain in
      After-any Q (ledger_from_blockchain w.platform chain p.finality_depth) _ (λ l.
        After->>= (λ r. r.1.blockchain ≡ some chain) Q (prune_invalid_mempool w _) _ (prune_lem _)
          (λ r h. After-return Q h))

  added :
      (b : Block) (p : Peer) (chain : List Block) (ok : Bool) (grown : List Block)
      → p.blockchain ≡ some chain
      → add_block w.platform chain b ≡ done (ok, grown)
      → After (Applied b p) (elim ok [
        | false ↦ done (false, p)
        | true ↦ settle_block w b grown p >>= λ q. done (true, q)
      ])
  added b p chain false grown had accepted = After-return (Applied b p) tt
  added b p chain true grown had accepted =
      After->>= (λ q. q.blockchain ≡ some grown) (Applied b p) (settle_block w b grown p) _
        (settle_lem b grown p)
        (λ q h.
          After-return (Applied b p)
            (record { chain = chain; grown = grown; had = had; accepted = accepted; has_now = h }))

  apply_lem : (b : Block) (p : Peer) → After (Applied b p) (apply_block w b p)
  unfolding apply_block
  apply_lem b p =
      After-option-known (Applied b p) p.blockchain _ _ (λ e. After-return (Applied b p) tt)
        (λ chain had.
          After->>= (λ r. add_block w.platform chain b ≡ done r) (Applied b p)
            (add_block w.platform chain b) _ (After-self _)
            (λ (ok, grown) accepted. added b p chain ok grown had accepted))

  -- What MineOneSlot returns.
  abbrev Mines : Option (List Block) → Option Block × Peer → Type 0
  Mines before (none, q) = Unit
  Mines before (some b, q) = Extends b before q

  published :
      (b : Block) (p p' : Peer) (r : Bool × Peer)
      → p'.blockchain ≡ p.blockchain
      → Applied b p' r
      → After (Mines p.blockchain) (elim r.0 [
        | false ↦ done (none, r.1)
        | true ↦ flood_network (block_message w b p') (count_mined r.1) >>= λ q. done (some b, q)
      ])
  published b p p' (false, q) same h = After-return (Mines p.blockchain) tt
  published b p p' (true, q) same h =
      After->>= (Untouched (count_mined q)) (Mines p.blockchain)
        (flood_network (block_message w b p') (count_mined q)) _
        (flood_network-Untouched (block_message w b p') (count_mined q))
        (λ q' u. After-return (Mines p.blockchain) (record {
          chain = h.chain;
          grown = h.grown;
          had = sym same ∙ h.had;
          accepted = h.accepted;
          has_now = u.0 ∙ h.has_now;
        }))

  publish_lem :
      (b : Block) (p p' : Peer)
      → p'.blockchain ≡ p.blockchain
      → After (Mines p.blockchain) (publish w b p')
  unfolding publish
  publish_lem b p p' same =
      After->>= (Applied b p') (Mines p.blockchain) (apply_block w b p') _ (apply_lem b p')
        (λ r h. published b p p' r same h)

  build_lem :
      (slot : ℤ) (miner : Account) (genesis : GenesisMetaData) (draw tickets : ℤ)
      (chain : List Block) (p : Peer)
      → After (Mines p.blockchain) (build_candidate w slot miner genesis draw tickets chain p)
  unfolding build_candidate try_candidate
  build_lem slot miner genesis draw tickets chain p =
      After-any (Mines p.blockchain) (canonical_blocks w.platform chain (pos 0)) _ (λ parents.
        After-any (Mines p.blockchain) (ledger_from_blockchain w.platform chain (pos 0)) _ (λ l.
          After-any (Mines p.blockchain) (best_leaf_hash w.platform chain) _ (λ hash.
            After->>= (λ r. r.1.blockchain ≡ p.blockchain) (Mines p.blockchain)
              (prune_invalid_mempool w p) _ (prune_lem p)
              (λ r same.
                After-any (Mines p.blockchain)
                  (select_transactions w block_size (map (λ e. e.1) r.1.mempool) (l, r.1.mempool)) _
                  (λ selected.
                    After-if (Mines p.blockchain)
                      (wins_lottery tickets
                        (effective_hardness_for_mining parents genesis (length selected.0)) draw)
                      _ _ (After-return (Mines p.blockchain) tt) (publish_lem _ p _ same))))))

  mine_lem : (slot : ℤ) (p : Peer) → After (Mines p.blockchain) (mine_one_slot w slot p)
  unfolding mine_one_slot draw_lottery
  mine_lem slot p =
      After-option (Mines p.blockchain) p.blockchain _ _ (After-return (Mines p.blockchain) tt)
        (λ chain.
          After-option (Mines p.blockchain) p.miner _ _ (After-return (Mines p.blockchain) tt)
            (λ miner.
              After-option (Mines p.blockchain) p.genesis _ _ (After-return (Mines p.blockchain) tt)
                (λ genesis.
                  let proof = sign_lottery_proof w.platform genesis.seed slot miner in
                  After-option (Mines p.blockchain)
                    (compute_lottery_draw_from_proof w.platform proof) _ _
                    (After-return (Mines p.blockchain) tt)
                    (λ draw.
                      After-if (Mines p.blockchain)
                        (leb_ℤ (validator_stake (count_attempt p)) (pos 0)) _ _
                        (After-if (Mines p.blockchain)
                          (wins_lottery (validator_stake (count_attempt p))
                            (optimistic_lottery_hardness (count_attempt p)) draw)
                          _ _ (After-return (Mines p.blockchain) tt)
                          (build_lem slot miner genesis draw _ chain (count_attempt p)))
                        (After-return (Mines p.blockchain) tt)))))

  -- A block that MineOneSlot returns is one that AddBlock has accepted on the chain of the peer, and the
  -- peer has the chain with that block afterwards.
  pub mine_one_slot-Extends :
      (slot : ℤ) (b : Block) (p q : Peer)
      → mine_one_slot w slot p ≡ done (some b, q)
      → Extends b p.blockchain q
  mine_one_slot-Extends slot b p q e = After-done (Mines p.blockchain) (mine_lem slot p) e
