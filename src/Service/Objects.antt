-- ===== src/Service/Objects.antt =====
-- peer/runtime_ops.go: the block objects of handleRPC.
use pokoinpos.Prelude.{ℕ, ◌+◌, Bool, Option, none, some, List, [], ◌∷◌, ◌++◌, if◌then◌else◌}
use pokoinpos.Prelude.Int.{ℤ, pos, wrap}
use pokoinpos.Prelude.Run.{Run, done, ◌>>=◌}
use pokoinpos.Text.{Text, txt, text_eq, has_prefix}
use pokoinpos.Text.Hex.{hex_encode}
use pokoinpos.Tx.{SignedTransaction}
use pokoinpos.Ledger.Copies.{zero_word}
use pokoinpos.Chain.Block.{Block, get_block_hash, decode_block_transactions}
use pokoinpos.Explorer.{evm_parent_hash, pad_zeros}
use pokoinpos.Explorer.Rpc.{parse_hex_uint64}
use pokoinpos.Peer.{Peer, Wire}
use pokoinpos.Peer.Sync.{chain_height}
use pokoinpos.Peer.Best.{block_by_number, block_by_hash}
use pokoinpos.Service.{
  Any, Anys, nil, text, items, no_items, item, literal, Gateway, Moment, hex_quantity,
  evm_gas_price, evm_gas_limit,
}
use pokoinpos.Service.Rpc.{Answer, result}
use pokoinpos.Service.Methods.{evm_transaction_object}

-- The height that evmBlockObject looks up; none is a tag that is no number.
unfoldable pub tagged_height : Text → ℕ → Option ℤ
tagged_height tag height =
    if has_prefix tag (txt "0x")
    then elim (parse_hex_uint64 tag) [ none ↦ none | some n ↦ some (wrap (pos n)) ]
    else some (if text_eq tag (txt "earliest") then pos 0 else pos height)

module _ (w : Wire) (g : Gateway) (now : Moment) where
  -- The transactions of a block, as objects or as their hashes.
  unfoldable pub block_entries : Bool → Text → ℕ → ℕ → List SignedTransaction → Anys
  block_entries include_txs hash height i [] = no_items
  block_entries include_txs hash height i (t ∷ ts) =
      item (if include_txs then evm_transaction_object w g t hash height i else text t.id)
        (block_entries include_txs hash height (i + 1) ts)

  unfoldable pub evm_block_object_from_block : Block → ℕ → Bool → Any
  evm_block_object_from_block b height include_txs =
      let hash = txt "0x" ++ hex_encode (get_block_hash w.platform b) in
      let txs : List SignedTransaction = elim (decode_block_transactions w.platform b.meta_data) [
        | none ↦ []
        | some ts ↦ ts
      ] in
      literal (
        (txt "number", text (hex_quantity (pos height)))
        ∷ (txt "hash", text hash)
        ∷ (txt "parentHash", text (evm_parent_hash b.parent_hash))
        ∷ (txt "nonce", text (txt "0x0000000000000000"))
        ∷ (
          txt "sha3Uncles",
          text (txt "0x1dcc4de8dec75d7aab85b567b6ccd41ad312451b948a7413f0a142fd40d49347"),
        )
        ∷ (txt "logsBloom", text (txt "0x" ++ pad_zeros 512 []))
        ∷ (txt "transactionsRoot", text zero_word)
        ∷ (txt "stateRoot", text zero_word)
        ∷ (txt "receiptsRoot", text zero_word)
        ∷ (txt "miner", text (txt "0x0000000000000000000000000000000000000000"))
        ∷ (txt "difficulty", text (txt "0x0"))
        ∷ (txt "totalDifficulty", text (txt "0x0"))
        ∷ (txt "extraData", text (txt "0x"))
        ∷ (txt "size", text (txt "0x0"))
        ∷ (txt "gasLimit", text evm_gas_limit)
        ∷ (txt "gasUsed", text (txt "0x0"))
        ∷ (txt "baseFeePerGas", text evm_gas_price)
        ∷ (txt "timestamp", text (hex_quantity now.uptime_seconds))
        ∷ (txt "transactions", items (block_entries include_txs hash height 0 txs))
        ∷ (txt "uncles", items no_items)
        ∷ [])

  unfoldable pub block_object : Bool → Option (Block × ℕ) → Answer
  block_object include_txs none = result nil
  block_object include_txs (some (b, height)) =
      result (evm_block_object_from_block b height include_txs)

  unfoldable pub evm_block_object : Text → Bool → Peer → Run Answer
  evm_block_object tag include_txs p = do
    height ← chain_height w p
    elim (tagged_height tag height) [
      | none ↦ done (result nil)
      | some n ↦ do found ← block_by_number w n p; done (block_object include_txs found)
    ]

  unfoldable pub evm_block_object_by_hash : Text → Bool → Peer → Run Answer
  evm_block_object_by_hash hash include_txs p = do
    found ← block_by_hash w hash p
    done (block_object include_txs found)
