-- ===== src/Explorer.antt =====
-- peer/runtime_index.go: the explorer's index of the canonical chain. An `any` that holds a pointer is
-- an Option of an Option: the outer none is the nil interface.
pub mod Pages
pub mod Rpc
pub mod Numbers
use pokoinpos.Prelude.{
  ℕ, zero, suc, ◌+◌, ◌-◌, Bool, Option, none, some, List, [], ◌∷◌, ◌++◌, if◌then◌else◌, length, ltb,
}
use pokoinpos.Prelude.Int.{ℤ, pos, sub_int, leb_ℤ, ltb_ℤ}
use pokoinpos.Prelude.Run.{Run, done, ◌>>=◌}
use pokoinpos.Text.{Text, txt, is_empty, trim_space, to_lower}
use pokoinpos.Text.Hex.{hex_encode}
use pokoinpos.GoMap.{Map, lookup, at, insert}
use pokoinpos.Base64
use pokoinpos.Tx.{SignedTransaction, NftPayload, AmmPayload}
use pokoinpos.Ledger.Copies.{zero_word}
use pokoinpos.Chain.Block.{Block, get_block_hash, decode_block_transactions}
use pokoinpos.Chain.Tree.{canonical_blocks}
use pokoinpos.Peer.{Peer, Wire}

pub record ExplorerTx : Type 0 where
  pub hash : Text
  pub from : Text
  pub to : Text
  pub amount : ℤ
  pub kind : Text
  pub nonce : ℕ
  pub chain_id : ℤ
  pub raw : Text
  pub signature : Text
  pub nft : Option (Option NftPayload)
  pub amm : Option (Option AmmPayload)
  pub block_hash : Text
  pub block_number : ℕ
  pub transaction_index : ℕ
  pub finalized : Bool

pub record ExplorerBlock : Type 0 where
  pub number : ℕ
  pub hash : Text
  pub parent_hash : Text
  pub slot : ℤ
  pub draw : ℤ
  pub miner : Text
  pub transaction_count : ℕ
  pub transactions : List ExplorerTx
  pub finalized : Bool

-- `blocks_by_number` lists the entries of a map with int keys by their key: the source fills it at the
-- heights 0, 1, 2, … in turn.
pub record ExplorerIndex : Type 0 where
  pub blocks_by_number : List ExplorerBlock
  pub blocks_by_hash : Map ExplorerBlock
  pub txs_by_hash : Map ExplorerTx
  pub txs_by_address : Map (List ExplorerTx)
  pub latest_height : ℕ
  pub finalized_height : ℤ

abbrev pub empty_index : ExplorerIndex
empty_index = record {
  blocks_by_number = [];
  blocks_by_hash = [];
  txs_by_hash = [];
  txs_by_address = [];
  latest_height = 0;
  finalized_height = pos 0;
}

unfoldable pub explorer_tx_from_signed : SignedTransaction → Text → ℕ → ℕ → Bool → ExplorerTx
explorer_tx_from_signed t block_hash block_number tx_index finalized = record {
  hash = t.id;
  from = t.from;
  to = t.to;
  amount = t.amount;
  kind = t.kind;
  nonce = t.nonce;
  chain_id = t.chain_id;
  raw = t.raw;
  signature = t.signature;
  nft = some t.nft;
  amm = some t.amm;
  block_hash = block_hash;
  block_number = block_number;
  transaction_index = tx_index;
  finalized = finalized;
}

-- `nft_json` and `amm_json` are json.Unmarshal after json.Marshal, of a pointer into a payload; none is
-- an error.
module _ (nft_json : Option NftPayload → Option NftPayload)
    (amm_json : Option AmmPayload → Option AmmPayload) where
  unfoldable pub signed_transaction_from_explorer : ExplorerTx → SignedTransaction
  signed_transaction_from_explorer t = record {
    id = t.hash;
    from = t.from;
    to = t.to;
    amount = t.amount;
    signature = t.signature;
    kind = t.kind;
    nonce = t.nonce;
    raw = t.raw;
    chain_id = t.chain_id;
    nft = elim t.nft [ none ↦ none | some pointer ↦ nft_json pointer ];
    amm = elim t.amm [ none ↦ none | some pointer ↦ amm_json pointer ];
  }

unfoldable pub index_address_tx : Text → ExplorerTx → Map (List ExplorerTx) → Map (List ExplorerTx)
index_address_tx given tx index =
    let address = to_lower (trim_space given) in
    if is_empty address then index else insert address (at [] address index ++ (tx ∷ [])) index

-- `fmt.Sprintf("%064x", decoded)`: what is shorter than 64 digits is padded with zeros.
unfoldable pub pad_zeros : ℕ → Text → Text
pad_zeros zero t = t
pad_zeros (suc n) t = 48 ∷ pad_zeros n t

unfoldable pub padded_hex : Text → Text
padded_hex s = pad_zeros (64 - length (hex_encode s)) (hex_encode s)

unfoldable pub evm_parent_hash : Text → Text
evm_parent_hash hash = if is_empty hash then zero_word else elim (Base64.decode hash) [
  | none ↦ zero_word
  | some decoded ↦ txt "0x" ++ padded_hex decoded
]

unfoldable pub explorer_parent_hash : Text → Text
explorer_parent_hash hash = if is_empty hash then zero_word else evm_parent_hash hash

-- The loop over the transactions of a block: what it lists and what it indexes.
unfoldable pub index_txs :
    List SignedTransaction → Text → ℕ → ℕ → Bool → ExplorerIndex → ExplorerIndex
index_txs [] block_hash height i finalized idx = idx
index_txs (t ∷ ts) block_hash height i finalized idx =
    let tx = explorer_tx_from_signed t block_hash height i finalized in
    index_txs ts block_hash height (i + 1) finalized (record idx {
      txs_by_hash = insert (to_lower tx.hash) tx idx.txs_by_hash;
      txs_by_address = index_address_tx tx.to tx (index_address_tx tx.from tx idx.txs_by_address);
    })

unfoldable pub list_txs : List SignedTransaction → Text → ℕ → ℕ → Bool → List ExplorerTx
list_txs [] block_hash height i finalized = []
list_txs (t ∷ ts) block_hash height i finalized =
    explorer_tx_from_signed t block_hash height i finalized
    ∷ list_txs ts block_hash height (i + 1) finalized

-- BlockList: the blocks by falling number.
unfoldable pub insert_block : ExplorerBlock → List ExplorerBlock → List ExplorerBlock
insert_block a [] = a ∷ []
insert_block a (b ∷ rest) =
    let below = insert_block a rest in if ltb b.number a.number then a ∷ b ∷ rest else b ∷ below

unfoldable pub sort_blocks : List ExplorerBlock → List ExplorerBlock
sort_blocks [] = []
sort_blocks (a ∷ rest) = insert_block a (sort_blocks rest)

unfoldable pub block_list : ExplorerIndex → List ExplorerBlock
block_list idx = sort_blocks idx.blocks_by_number

module _ (w : Wire) where
  unfoldable pub block_hex_hash : Block → Text
  block_hex_hash b = txt "0x" ++ hex_encode (get_block_hash w.platform b)

  -- The transactions of a block, where they can be read.
  unfoldable pub block_transactions : Block → List SignedTransaction
  block_transactions b = elim (decode_block_transactions w.platform b.meta_data) [
    | none ↦ []
    | some txs ↦ txs
  ]

  unfoldable pub explorer_block : Block → ℕ → Bool → ExplorerBlock
  explorer_block b height finalized = record {
    number = height;
    hash = block_hex_hash b;
    parent_hash = explorer_parent_hash b.parent_hash;
    slot = b.slot;
    draw = b.draw;
    miner = b.verification_key;
    transaction_count = length (block_transactions b);
    transactions = list_txs (block_transactions b) (block_hex_hash b) height 0 finalized;
    finalized = finalized;
  }

  -- The body of the loop over the blocks.
  unfoldable pub index_block : Block → ℕ → ExplorerIndex → ExplorerIndex
  index_block b height idx =
      let finalized = leb_ℤ (pos height) idx.finalized_height in
      let indexed = index_txs (block_transactions b) (block_hex_hash b) height 0 finalized idx in
      record indexed {
        blocks_by_number = indexed.blocks_by_number ++ (explorer_block b height finalized ∷ []);
        blocks_by_hash =
            insert (to_lower (block_hex_hash b)) (explorer_block b height finalized)
              indexed.blocks_by_hash;
      }

  unfoldable pub index_blocks : List Block → ℕ → ExplorerIndex → ExplorerIndex
  index_blocks [] height idx = idx
  index_blocks (b ∷ rest) height idx = index_blocks rest (height + 1) (index_block b height idx)

  unfoldable pub index_chain : List Block → ℤ → ExplorerIndex
  index_chain [] finality_depth = empty_index
  index_chain (b ∷ rest) finality_depth =
      let finalized = sub_int (pos (length rest)) finality_depth in
      index_blocks (b ∷ rest) 0 (record empty_index {
        latest_height = length rest;
        finalized_height = if ltb_ℤ finalized (pos 0) then pos 0 else finalized;
      })

  unfoldable pub build_explorer_index : Peer → Run ExplorerIndex
  build_explorer_index p = elim p.blockchain [
    | none ↦ done empty_index
    | some chain ↦ do
      blocks ← canonical_blocks w.platform chain (pos 0)
      done (index_chain blocks p.finality_depth)
  ]
