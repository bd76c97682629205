-- ===== src/Explorer/Numbers.antt =====
-- The numbers of the blocks in the explorer's index.
use pokoinpos.Prelude.{
  ℕ, zero, suc, ◌+◌, ◌<◌, ◌≡◌, refl, sym, ◌∙◌, ap, Bool, some, List, [], ◌∷◌, ◌++◌, length, drop,
  if◌then◌else◌, arith, append-nil, append_assoc,
}
use pokoinpos.Prelude.Int.{ℤ, pos, sub_int, leb_ℤ, ltb_ℤ}
use pokoinpos.Text.{Text}
use pokoinpos.Tx.{SignedTransaction}
use pokoinpos.Chain.Block.{Block}
use pokoinpos.Peer.{Wire}
use pokoinpos.Explorer.{
  ExplorerBlock, ExplorerIndex, empty_index, index_txs, index_block, index_blocks, index_chain,
  explorer_block, block_transactions, block_hex_hash,
}
use pokoinpos.Explorer.Rpc.{block_at}

-- The fields of an index that the transactions of a block do not touch.
index_txs-frame :
    (txs : List SignedTransaction) (hash : Text) (height i : ℕ) (finalized : Bool)
    (idx : ExplorerIndex)
    → ((index_txs txs hash height i finalized idx).blocks_by_number ≡ idx.blocks_by_number)
      × ((index_txs txs hash height i finalized idx).finalized_height ≡ idx.finalized_height)
unfolding index_txs
index_txs-frame [] hash height i finalized idx = (refl, refl)
index_txs-frame (t ∷ ts) hash height i finalized idx =
    index_txs-frame ts hash height (i + 1) finalized _

module _ (w : Wire) where
  -- The blocks of a chain with their heights.
  abbrev listed : List Block → ℕ → ℤ → List ExplorerBlock
  listed [] height final = []
  listed (b ∷ rest) height final =
      explorer_block w b height (leb_ℤ (pos height) final) ∷ listed rest (height + 1) final

  index_blocks-listed :
      (blocks : List Block) (height : ℕ) (idx : ExplorerIndex)
      → (index_blocks w blocks height idx).blocks_by_number
        ≡ idx.blocks_by_number ++ listed blocks height idx.finalized_height
  unfolding index_blocks index_block
  index_blocks-listed [] height idx = sym (append-nil idx.blocks_by_number)
  index_blocks-listed (b ∷ rest) height idx =
      let (same, final) =
        index_txs-frame (block_transactions w b) (block_hex_hash w b) height 0
          (leb_ℤ (pos height) idx.finalized_height) idx in
      index_blocks-listed rest (height + 1) (index_block w b height idx)
      ∙ rw (same, final) (append_assoc idx.blocks_by_number _ _)

  -- The block at a place of the list.
  listed-number :
      (blocks : List Block) (height i : ℕ) (final : ℤ)
      → i < length blocks
      → (b : ExplorerBlock) × (rest : List ExplorerBlock) × (drop i (listed blocks height final)
          ≡ b ∷ rest)
        × (b.number ≡ height + i)
  unfolding explorer_block
  listed-number [] height i final h = absurd (omega (arith, h))
  listed-number (b ∷ blocks) height zero final h = (_, _, refl, omega arith)
  listed-number (b ∷ blocks) height (suc i) final h =
      let (c, rest, e, n) = listed-number blocks (height + 1) i final (omega (arith, h)) in
      (c, rest, e, omega (arith, n))

  block_at-listed :
      (idx : ExplorerIndex) (l : List ExplorerBlock) (height : ℕ) {b : ExplorerBlock}
      {rest : List ExplorerBlock}
      → idx.blocks_by_number ≡ l
      → drop height l ≡ b ∷ rest
      → block_at idx (pos height) ≡ some b
  unfolding block_at
  block_at-listed idx l height same e =
      let at_height = ap (drop height) same ∙ e in ground (arith, at_height)

  -- The explorer's index of a chain has a block at every height of the chain, with that height as its
  -- number.
  pub index_chain-number :
      (blocks : List Block) (finality_depth : ℤ) (height : ℕ)
      → height < length blocks
      → (b : ExplorerBlock) × (block_at (index_chain w blocks finality_depth) (pos height) ≡ some b)
        × (b.number ≡ height)
  unfolding index_chain
  index_chain-number [] depth height h = absurd (omega (arith, h))
  index_chain-number (b ∷ blocks) depth height h =
      let final = sub_int (pos (length blocks)) depth in
      let idx : ExplorerIndex = record empty_index {
        latest_height = length blocks;
        finalized_height = if ltb_ℤ final (pos 0) then pos 0 else final;
      } in
      let (c, rest, e, n) = listed-number (b ∷ blocks) 0 height idx.finalized_height h in
      (c, block_at-listed _ _ height (index_blocks-listed (b ∷ blocks) 0 idx) e, omega (arith, n))
