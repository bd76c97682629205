-- ===== src/Service/Methods.antt =====
-- peer/runtime_ops.go: the transaction objects, their lookup and the receipts of handleRPC.
use pokoinpos.Prelude.{ℕ, true, false, Option, none, some, List, [], ◌∷◌, ◌++◌, if◌then◌else◌}
use pokoinpos.Prelude.Int.{pos}
use pokoinpos.Prelude.Run.{Run, done, ◌>>=◌}
use pokoinpos.Text.{Text, txt, is_empty, to_lower}
use pokoinpos.Text.Hex.{hex_encode}
use pokoinpos.Tx.{SignedTransaction}
use pokoinpos.Ledger.{EvmReceipt}
use pokoinpos.Transaction.Verify.{decode_evm}
use pokoinpos.Explorer.{ExplorerTx, ExplorerBlock, signed_transaction_from_explorer}
use pokoinpos.Explorer.Rpc.{transaction_at, transaction_location}
use pokoinpos.Peer.{Peer, Wire}
use pokoinpos.Peer.Best.{best_evm_receipt}
use pokoinpos.Service.{
  Any, nil, text, items, literal, slice, Gateway, hex_quantity, pk_to_evm_value, evm_gas_price,
}
use pokoinpos.Service.Rpc.{Answer, result, invalid_params, read_text, or_old, log_objects}

unfoldable pub count_answer : Option ExplorerBlock → Answer
count_answer none = result nil
count_answer (some b) = result (text (hex_quantity (pos b.transaction_count)))

-- The two parameters of those methods, empty where they are no texts.
unfoldable pub with_two : List Any → Text → (Text → Text → Run Answer) → Run Answer
with_two [] missing k = done (invalid_params missing)
with_two (a ∷ []) missing k = done (invalid_params missing)
with_two (a ∷ b ∷ rest) missing k = k (or_old [] (read_text [] a)) (or_old [] (read_text [] b))

module _ (w : Wire) (g : Gateway) where
  -- The input of a transaction as the machine gets it.
  unfoldable pub input_of : SignedTransaction → Text
  input_of t = if is_empty t.raw then txt "0x" else elim (decode_evm w.platform t) [
    | none ↦ txt "0x"
    | some tx ↦ txt "0x" ++ hex_encode tx.payload
  ]

  unfoldable pub evm_transaction_object : SignedTransaction → Text → ℕ → ℕ → Any
  evm_transaction_object t block_hash block_number tx_index =
      let mined : Any → Any = λ value. if is_empty block_hash then nil else value in
      literal (
        (txt "hash", text t.id)
        ∷ (txt "nonce", text (hex_quantity (pos t.nonce)))
        ∷ (txt "blockHash", mined (text block_hash))
        ∷ (txt "blockNumber", mined (text (hex_quantity (pos block_number))))
        ∷ (txt "transactionIndex", mined (text (hex_quantity (pos tx_index))))
        ∷ (txt "from", text t.from)
        ∷ (txt "to", text t.to)
        ∷ (txt "value", text (hex_quantity (pk_to_evm_value t.amount)))
        ∷ (txt "gas", text (txt "0x5208"))
        ∷ (txt "gasPrice", text evm_gas_price)
        ∷ (txt "input", text (input_of t))
        ∷ [])

  -- The transaction of an entry of the index.
  unfoldable pub entry_object : ExplorerTx → Any
  entry_object tx =
      evm_transaction_object (signed_transaction_from_explorer g.nft_json g.amm_json tx)
        tx.block_hash tx.block_number tx.transaction_index

  -- The end of the two methods that name a block and an index.
  unfoldable pub indexed_transaction : Option ExplorerBlock → Text → Run Answer
  indexed_transaction none index_raw = done (result nil)
  indexed_transaction (some b) index_raw = do
    found ← transaction_at b index_raw
    done (result (elim found [ none ↦ nil | some tx ↦ entry_object tx ]))

  -- The address of the contract that a transaction without a receipt creates.
  unfoldable pub created_address : SignedTransaction → Any
  created_address t = if is_empty t.raw then nil else elim (decode_evm w.platform t) [
    | none ↦ nil
    | some tx ↦ elim tx.to [
      | none ↦ text (to_lower (g.create_address t.from t.nonce))
      | some to ↦ nil
    ]
  ]

  unfoldable pub receipt_object : Option EvmReceipt → SignedTransaction → Text → ℕ → ℕ → Any
  receipt_object receipt t block_hash block_number tx_index =
      let gas_used : ℕ = elim receipt [ none ↦ 21000 | some found ↦ found.gas_used ] in
      let contract : Any = elim receipt [
        | none ↦ created_address t
        | some found ↦ if is_empty found.contract_address then nil else text found.contract_address
      ] in
      let logs : List Any = elim receipt [
        | none ↦ []
        | some found ↦ log_objects found.logs t.id block_hash block_number tx_index 0
      ] in
      literal (
        (txt "transactionHash", text t.id)
        ∷ (txt "transactionIndex", text (hex_quantity (pos tx_index)))
        ∷ (txt "blockHash", text block_hash)
        ∷ (txt "blockNumber", text (hex_quantity (pos block_number)))
        ∷ (txt "from", text t.from)
        ∷ (txt "to", text t.to)
        ∷ (txt "cumulativeGasUsed", text (hex_quantity (pos gas_used)))
        ∷ (txt "gasUsed", text (hex_quantity (pos gas_used)))
        ∷ (txt "contractAddress", contract)
        ∷ (txt "logs", items (slice (λ log. log) logs))
        ∷ (txt "status", text (txt "0x1"))
        ∷ [])

  unfoldable pub transaction_by_hash : Text → Peer → Run Answer
  transaction_by_hash hash p = do
    found ← transaction_location w g.nft_json g.amm_json (to_lower hash) p
    done (
        result (elim found [
          | none ↦ nil
          | some (t, block_hash, number_of, i) ↦ evm_transaction_object t block_hash number_of i
        ]))

  unfoldable pub transaction_receipt : Text → Peer → Run Answer
  transaction_receipt hash p = do
    found ← transaction_location w g.nft_json g.amm_json (to_lower hash) p
    elim found [
      | none ↦ done (result nil)
      | some (t, block_hash, number_of, i) ↦ elim (is_empty block_hash) [
        | true ↦ done (result nil)
        | false ↦ do
          receipt ← best_evm_receipt w t.id p
          done (result (receipt_object receipt t block_hash number_of i))
      ]
    ]
