-- ===== src/Chain/State.antt =====
-- The ledger that a branch of blocks computes.
use pokoinpos.Prelude.{none, some, List, [], ◌∷◌}
use pokoinpos.Prelude.Int.{ℤ, add_int}
use pokoinpos.Prelude.Run.{Run, done, ◌>>=◌}
use pokoinpos.Text.{Text}
use pokoinpos.GoMap.{insert}
use pokoinpos.Tx.{SignedTransaction}
use pokoinpos.Ledger.{Ledger, make_ledger, mark_validator, balance_of}
use pokoinpos.Genesis.{initialize_from_genesis}
use pokoinpos.Platform.{Platform}
use pokoinpos.Transaction.Apply.{transaction}
use pokoinpos.Chain.Block.{
  Block, miner_block_reward, decode_block_transactions, decode_genesis_from_meta,
}
use pokoinpos.Chain.Tree.{
  Nodes, calculate_depths, get_blocks_from_longest_branch, get_leaf_hash, cut_rollback,
}

-- `ledger.Accounts[key] += MINER_BLOCK_REWARD`
unfoldable pub reward_miner : Text → Ledger → Ledger
reward_miner key l = record l {
  accounts = insert key (add_int (balance_of l key) miner_block_reward) l.accounts;
}

module _ (pf : Platform) where
  -- The transactions of a block in order, whether they succeed or not.
  unfoldable pub replay_transactions : List SignedTransaction → Ledger → Run Ledger
  replay_transactions [] l = done l
  replay_transactions (t ∷ ts) l = do
    (ok, mutated, next) ← transaction pf t l
    replay_transactions ts next

  -- A block whose transactions cannot be read marks its validator and pays no reward.
  unfoldable pub replay_block : Block → Ledger → Run Ledger
  replay_block b l =
      let marked = mark_validator l b.verification_key in
      elim (decode_block_transactions pf b.meta_data) [
        | none ↦ done marked
        | some txs ↦ do
          next ← replay_transactions txs marked
          done (reward_miner b.verification_key next)
      ]

  unfoldable pub replay_blocks : List Block → Ledger → Run Ledger
  replay_blocks [] l = done l
  replay_blocks (b ∷ rest) l = do next ← replay_block b l; replay_blocks rest next

  unfoldable pub build_ledger_from_blocks : List Block → Run Ledger
  build_ledger_from_blocks [] = done make_ledger
  build_ledger_from_blocks (b ∷ rest) = elim (decode_genesis_from_meta pf b.meta_data) [
    | none ↦ done make_ledger
    | some genesis ↦ replay_blocks rest (initialize_from_genesis genesis make_ledger)
  ]

  unfoldable pub build_ledger_at_hash : Nodes → Text → Run Ledger
  build_ledger_at_hash nodes hash = do
    chain ← get_blocks_from_longest_branch nodes hash
    build_ledger_from_blocks chain

  unfoldable pub ledger_from_blockchain : List Block → ℤ → Run Ledger
  ledger_from_blockchain chain rollback = do
    (depths, nodes) ← calculate_depths pf chain
    blocks ← get_blocks_from_longest_branch nodes (get_leaf_hash depths)
    build_ledger_from_blocks (cut_rollback rollback blocks)
