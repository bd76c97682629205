-- ===== src/Chain/AddBlock.antt =====
-- AddBlock, the validation of a block against the ledger of its parent, and the chain with only a
-- genesis block.
use pokoinpos.Prelude.{
  ℕ, Bool, true, false, not, ◌&&◌, ◌++◌, Option, none, some, List, [], ◌∷◌, if◌then◌else◌, length,
  ltb,
}
use pokoinpos.Prelude.Int.{ℤ, pos, leb_ℤ, ltb_ℤ, eqb_ℤ}
use pokoinpos.Prelude.Run.{Run, done, panic, ◌>>=◌}
use pokoinpos.Text.{Text, txt, is_empty}
use pokoinpos.GoMap.{lookup, has}
use pokoinpos.Base64
use pokoinpos.Tx.{SignedTransaction}
use pokoinpos.Ledger.{Ledger, is_validator, get_balance, lottery_tickets}
use pokoinpos.Genesis.{GenesisMetaData}
use pokoinpos.Platform.{Platform}
use pokoinpos.Transaction.Apply.{transaction}
use pokoinpos.Chain.Block.{
  Block, block_size, wins_lottery, block_authentic, verify_lottery_proof,
  compute_lottery_draw_from_proof, compute_lottery_draw, decode_block_transactions,
  decode_genesis_from_meta,
}
use pokoinpos.Chain.Hardness.{effective_hardness_for_mining}
use pokoinpos.Chain.Tree.{Nodes, calculate_depths, get_blocks_from_longest_branch, get_genesis_hash}
use pokoinpos.Chain.State.{build_ledger_at_hash}

module _ (pf : Platform) where
  -- The number of transactions of a block, which is 0 where they cannot be read.
  tx_count_of : Block → ℕ
  tx_count_of b = elim (decode_block_transactions pf b.meta_data) [
    | none ↦ 0
    | some txs ↦ length txs
  ]

  unfoldable pub effective_hardness_for_block : Nodes → GenesisMetaData → Block → Run ℤ
  unfolding tx_count_of
  effective_hardness_for_block nodes genesis b = do
    parents ← get_blocks_from_longest_branch nodes b.parent_hash
    done (effective_hardness_for_mining parents genesis (tx_count_of b))

  -- The draw that the seed, the slot and the key allow, by a proof or without one. `none` is a draw
  -- that the source refuses to compute.
  unfoldable pub expected_draw : ℤ → Block → Run (Option ℤ)
  expected_draw seed b =
      if is_empty b.lottery_proof
      then done (some (compute_lottery_draw pf seed b.slot b.verification_key))
      else do
        valid ← verify_lottery_proof pf seed b.slot b.verification_key b.lottery_proof
        done (if valid then compute_lottery_draw_from_proof pf b.lottery_proof else none)

  -- A key without a balance that is not registered plays at least at the hardness of the genesis.
  unfoldable pub entry_hardness : Ledger → GenesisMetaData → Text → ℤ → ℤ
  entry_hardness l genesis key hardness =
      if not (is_validator l key)
        && eqb_ℤ (get_balance l key) (pos 0)
        && ltb_ℤ hardness genesis.hardness
      then genesis.hardness
      else hardness

  -- The loop over the transactions, which stops at the first that fails.
  unfoldable pub all_apply : List SignedTransaction → Ledger → Run Bool
  all_apply [] l = done true
  all_apply (t ∷ ts) l = do
    (ok, mutated, next) ← transaction pf t l
    elim ok [ false ↦ done false | true ↦ all_apply ts next ]

  -- The last tests: no more than a block's transactions, all of them valid after the parent.
  unfoldable pub transactions_valid : Ledger → Block → Run Bool
  transactions_valid parent_ledger b = elim (decode_block_transactions pf b.meta_data) [
    | none ↦ done false
    | some txs ↦ elim (ltb block_size (length txs)) [
      | true ↦ done false
      | false ↦ all_apply txs parent_ledger
    ]
  ]

  -- The lottery and what follows it.
  unfoldable pub wins_and_applies : Nodes → GenesisMetaData → Block → Ledger → ℤ → Run Bool
  wins_and_applies nodes genesis b parent_ledger tickets = do
    hardness ← effective_hardness_for_block nodes genesis b
    elim (wins_lottery tickets (entry_hardness parent_ledger genesis b.verification_key hardness)
        b.draw) [ false ↦ done false | true ↦ transactions_valid parent_ledger b ]

  unfoldable pub draw_matches : Block → Option ℤ → Bool
  draw_matches b none = false
  draw_matches b (some d) = eqb_ℤ b.draw d

  -- The draw of the block, and what follows it.
  unfoldable pub draws_and_wins : Nodes → GenesisMetaData → Block → Ledger → ℤ → Run Bool
  draws_and_wins nodes genesis b parent_ledger tickets = do
    draw ← expected_draw genesis.seed b
    elim (draw_matches b draw) [
      | false ↦ done false
      | true ↦ wins_and_applies nodes genesis b parent_ledger tickets
    ]

  -- The tests from the tickets on.
  unfoldable pub plays : Nodes → GenesisMetaData → Block → Run Bool
  plays nodes genesis b = do
    parent_ledger ← build_ledger_at_hash pf nodes b.parent_hash
    tickets ← lottery_tickets parent_ledger b.verification_key
    elim (leb_ℤ tickets (pos 0)) [
      | true ↦ done false
      | false ↦ draws_and_wins nodes genesis b parent_ledger tickets
    ]

  -- The tests after the signature. Without a genesis block the source dereferences nil.
  unfoldable pub plays_genesis : Nodes → Block → Run Bool
  plays_genesis nodes b = elim (lookup (get_genesis_hash nodes) nodes) [
    | none ↦ panic
    | some node ↦ elim (decode_genesis_from_meta pf node.meta_data) [
      | none ↦ done false
      | some genesis ↦ plays nodes genesis b
    ]
  ]

  -- Whether AddBlock accepts a block.
  unfoldable pub accepts : List Block → Block → Run Bool
  accepts chain b = do
    (depths, nodes) ← calculate_depths pf chain
    elim (has b.parent_hash depths) [
      | false ↦ done false
      | true ↦ do
        authentic ← block_authentic pf b
        elim authentic [ false ↦ done false | true ↦ plays_genesis nodes b ]
    ]

  -- AddBlock: the result and the blocks afterwards. The ledger that it computes is dropped.
  unfoldable pub add_block : List Block → Block → Run (Bool × List Block)
  add_block chain b = do ok ← accepts chain b; done (ok, if ok then chain ++ (b ∷ []) else chain)

  -- NewBlockchainWithGenesis, on the JSON of the genesis settings.
  unfoldable pub new_blockchain_with_genesis : Text → List Block
  new_blockchain_with_genesis meta =
      record {
        block_type = txt "block";
        verification_key = [];
        slot = pos 0;
        draw = pos 0;
        meta_data = Base64.encode meta;
        parent_hash = [];
        signature = [];
        lottery_proof = [];
      }
      ∷ []
