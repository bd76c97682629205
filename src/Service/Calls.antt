-- ===== src/Service/Calls.antt =====
-- peer/runtime_ops.go: evmCall with the ledger's CallEVM, evmEstimateGas, evmGetLogs and evmFeeHistory.
use pokoinpos.Prelude.{
  ℕ, zero, suc, ◌+◌, Bool, true, false, ◌&&◌, not, Option, none, some, List, [], ◌∷◌, ◌++◌,
  if◌then◌else◌,
}
use pokoinpos.Prelude.Int.{pos, negsuc}
use pokoinpos.Prelude.Run.{Run, done, ◌>>=◌}
use pokoinpos.Text.{Text, txt, text_eq, is_empty}
use pokoinpos.Text.Hex.{hex_encode}
use pokoinpos.GoMap.{Map}
use pokoinpos.Ledger.{Ledger}
use pokoinpos.Evm.{new_evm_state_adapter, snapshot, run_calls, revert_to_snapshot}
use pokoinpos.Explorer.{ExplorerTx, build_explorer_index}
use pokoinpos.Explorer.Rpc.{fee_block_count, oldest_block}
use pokoinpos.Peer.{Peer, Wire}
use pokoinpos.Peer.Sync.{chain_height}
use pokoinpos.Peer.Best.{on_best, best_evm_receipt}
use pokoinpos.Service.{
  Any, Anys, Fields, text, natural, items, no_items, item, literal, slice, Gateway, hex_quantity,
  evm_gas_price,
}
use pokoinpos.Service.Rpc.{
  Answer, result, rpc_error, invalid_params, read_text, read_fields, field_text, field_of,
  log_objects, address_filter, passing,
}

-- `quantities n` is a slice of n gas prices, `zeros n` one of n float64 zeros.
unfoldable pub prices : ℕ → Anys
prices zero = no_items
prices (suc n) = item (text evm_gas_price) (prices n)

unfoldable pub zeros : ℕ → Anys
zeros zero = no_items
zeros (suc n) = item (natural 0) (zeros n)

-- The data of a call object: "data", or "input" where that is empty.
unfoldable pub call_data : Fields → Text
call_data call =
    let data_text = field_text (txt "data") call in
    if is_empty data_text then field_text (txt "input") call else data_text

unfoldable pub evm_estimate_gas : List Any → Answer
evm_estimate_gas [] = result (text (txt "0x5208"))
evm_estimate_gas (param ∷ rest) = elim (read_fields param) [
  | none ↦ invalid_params (txt "invalid call object")
  | some call ↦
      let data_text = call_data call in
      result (
        text (
          if not (is_empty data_text) && not (text_eq data_text (txt "0x"))
          then hex_quantity (pos 5000000)
          else txt "0x5208"))
]

-- The method CallEVM of a ledger: what the call returns, and the ledger after it.
unfoldable pub call_evm : Gateway → Text → Text → Text → Ledger → Option Text × Ledger
call_evm g from to input l =
    let (id, started) = snapshot (new_evm_state_adapter l.evm_accounts) in
    let run = g.static_call l.evm_accounts from to input in
    let ended = revert_to_snapshot (run_calls run.calls started) id in
    (run.output, record l { evm_accounts = ended.accounts })

module _ (w : Wire) where
  -- The loop of evmGetLogs over the entries of the index, in the order in which they are given: Go
  -- ranges over the map in an order that changes from run to run.
  unfoldable pub logs_of : Map Bool → Map ExplorerTx → Peer → Run (List Any)
  logs_of filter [] p = done []
  logs_of filter ((key, tx) ∷ rest) p = do
    receipt ← best_evm_receipt w tx.hash p
    below ← logs_of filter rest p
    done (elim receipt [
      | none ↦ below
      | some found ↦
          passing filter
            (log_objects found.logs tx.hash tx.block_hash tx.block_number tx.transaction_index 0)
          ++ below
    ])

  unfoldable pub logs_for : Fields → Peer → Run Answer
  logs_for fields p = do
    idx ← build_explorer_index w p
    logs ← logs_of (address_filter (field_of (txt "address") fields)) idx.txs_by_hash p
    done (result (items (slice (λ log. log) logs)))

  unfoldable pub evm_get_logs : List Any → Peer → Run Answer
  evm_get_logs params p = elim params [
    | [] ↦ logs_for Fields.no_fields p
    | param ∷ rest ↦ elim (read_fields param) [
      | none ↦ done (invalid_params (txt "invalid log filter"))
      | some fields ↦ logs_for fields p
    ]
  ]

  unfoldable pub evm_fee_history : List Any → Peer → Run Answer
  evm_fee_history params p = do
    height ← chain_height w p
    let first : Option Text = elim params [ [] ↦ none | param ∷ rest ↦ read_text [] param ]
    let block_count = fee_block_count first
    done (
        result (
          literal (
            (txt "oldestBlock", text (hex_quantity (pos (oldest_block height block_count))))
            ∷ (txt "baseFeePerGas", items (prices (block_count + 1)))
            ∷ (txt "gasUsedRatio", items (zeros block_count))
            ∷ (txt "reward", items no_items)
            ∷ [])))

module _ (w : Wire) (g : Gateway) where
  unfoldable pub best_evm_call : Text → Text → Text → Peer → Run (Option Text)
  best_evm_call from to input p = on_best w none (λ l. (call_evm g from to input l).0) p

  -- evmCall, on the call object.
  unfoldable pub call_on : Fields → Peer → Run Answer
  call_on call p =
      let to = field_text (txt "to") call in
      let given = field_text (txt "from") call in
      let from =
        if is_empty given then txt "0x0000000000000000000000000000000000000000" else given in
      elim (is_empty to) [
        | true ↦ done (invalid_params (txt "eth_call requires to"))
        | false ↦ do
          output ← best_evm_call from to (g.from_hex (call_data call)) p
          done (elim output [
            | none ↦ rpc_error (negsuc 31999) (txt "evm call reverted")
            | some ret ↦ result (text (txt "0x" ++ hex_encode ret))
          ])
      ]

  unfoldable pub evm_call : List Any → Peer → Run Answer
  evm_call [] p = done (invalid_params (txt "eth_call requires call object"))
  evm_call (param ∷ rest) p = elim (read_fields param) [
    | none ↦ done (invalid_params (txt "invalid call object"))
    | some call ↦ call_on call p
  ]
