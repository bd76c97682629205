-- ===== src/Service/Dispatch.antt =====
-- peer/runtime_ops.go: the switch of handleRPC.
use pokoinpos.Prelude.{true, false, none, some, List, [], ◌∷◌, ◌++◌}
use pokoinpos.Prelude.Int.{pos, negsuc}
use pokoinpos.Prelude.Run.{Run, done, ◌>>=◌}
use pokoinpos.Text.{Text, txt, text_eq, to_lower}
use pokoinpos.Text.Hex.{hex_encode}
use pokoinpos.GoMap.{Map, lookup}
use pokoinpos.Explorer.{build_explorer_index}
use pokoinpos.Explorer.Rpc.{block_by_tag, Reply, get_transaction_count, send_raw_transaction}
use pokoinpos.Peer.{Peer, Wire}
use pokoinpos.Peer.Sync.{chain_height}
use pokoinpos.Peer.Best.{best_balance_of, best_evm_code, best_evm_storage}
use pokoinpos.Service.{
  Any, text, boolean, items, no_items, RpcRequest, Gateway, Moment, OpsServer, node_version,
  hex_quantity, pk_to_evm_value, evm_gas_price,
}
use pokoinpos.Service.Rpc.{
  Answer, result, rpc_error, invalid_params, read_text, with_text, tag_param, flag_param,
}
use pokoinpos.Service.Methods.{
  count_answer, indexed_transaction, with_two, transaction_by_hash, transaction_receipt,
}
use pokoinpos.Service.Calls.{evm_estimate_gas, evm_call, evm_get_logs, evm_fee_history}
use pokoinpos.Service.Objects.{evm_block_object, evm_block_object_by_hash}

-- The methods that only read.
pub data Method : Type 0 where
  client_version net_version chain_id block_number syncing accounts get_balance : Method
  transaction_count get_code get_storage call block_by_number block_by_hash : Method
  count_by_number count_by_hash at_number_and_index at_hash_and_index by_hash receipt : Method
  mining hashrate gas_price estimate_gas get_logs fee_history send_transaction : Method

unfoldable pub read_methods : Map Method
read_methods =
    (txt "web3_clientVersion", Method.client_version)
    ∷ (txt "net_version", Method.net_version)
    ∷ (txt "eth_chainId", Method.chain_id)
    ∷ (txt "eth_blockNumber", Method.block_number)
    ∷ (txt "eth_syncing", Method.syncing)
    ∷ (txt "eth_accounts", Method.accounts)
    ∷ (txt "eth_requestAccounts", Method.accounts)
    ∷ (txt "eth_getBalance", Method.get_balance)
    ∷ (txt "eth_getTransactionCount", Method.transaction_count)
    ∷ (txt "eth_getCode", Method.get_code)
    ∷ (txt "eth_getStorageAt", Method.get_storage)
    ∷ (txt "eth_call", Method.call)
    ∷ (txt "eth_getBlockByNumber", Method.block_by_number)
    ∷ (txt "eth_getBlockByHash", Method.block_by_hash)
    ∷ (txt "eth_getBlockTransactionCountByNumber", Method.count_by_number)
    ∷ (txt "eth_getBlockTransactionCountByHash", Method.count_by_hash)
    ∷ (txt "eth_getTransactionByBlockNumberAndIndex", Method.at_number_and_index)
    ∷ (txt "eth_getTransactionByBlockHashAndIndex", Method.at_hash_and_index)
    ∷ (txt "eth_getTransactionByHash", Method.by_hash)
    ∷ (txt "eth_getTransactionReceipt", Method.receipt)
    ∷ (txt "eth_mining", Method.mining)
    ∷ (txt "eth_hashrate", Method.hashrate)
    ∷ (txt "eth_gasPrice", Method.gas_price)
    ∷ (txt "eth_maxPriorityFeePerGas", Method.gas_price)
    ∷ (txt "eth_estimateGas", Method.estimate_gas)
    ∷ (txt "eth_getLogs", Method.get_logs)
    ∷ (txt "eth_feeHistory", Method.fee_history)
    ∷ (txt "eth_sendTransaction", Method.send_transaction)
    ∷ []

-- The second parameter of eth_getTransactionCount.
unfoldable pub count_tag : List Any → Text
count_tag [] = txt "latest"
count_tag (a ∷ rest) = tag_param rest

module _ (w : Wire) (g : Gateway) (s : OpsServer) (now : Moment) where
  unfoldable pub read_method : Method → List Any → Peer → Run Answer
  read_method Method.client_version params p = done (result (text node_version))
  read_method Method.net_version params p = done (result (text s.evm_network_id))
  read_method Method.chain_id params p = done (result (text (hex_quantity s.evm_chain_id)))
  read_method Method.block_number params p = do
    height ← chain_height w p
    done (result (text (hex_quantity (pos height))))
  read_method Method.syncing params p = done (result (boolean false))
  read_method Method.accounts params p = done (result (items no_items))
  read_method Method.get_balance params p =
      with_text params done (txt "eth_getBalance requires address") (txt "invalid address")
        (λ address. do
          balance ← best_balance_of w (to_lower address) p
          done (result (text (hex_quantity (pk_to_evm_value balance)))))
  read_method Method.transaction_count params p =
      with_text params done (txt "eth_getTransactionCount requires address") (txt "invalid address")
        (λ address. do
          nonce ← get_transaction_count w address (count_tag params) p
          done (result (text (hex_quantity (pos nonce)))))
  read_method Method.get_code params p =
      with_text params done (txt "eth_getCode requires address") (txt "invalid address") (λ address.
        do code ← best_evm_code w address p; done (result (text (txt "0x" ++ hex_encode code))))
  read_method Method.get_storage [] p =
      done (invalid_params (txt "eth_getStorageAt requires address and slot"))
  read_method Method.get_storage (a ∷ []) p =
      done (invalid_params (txt "eth_getStorageAt requires address and slot"))
  read_method Method.get_storage (a ∷ b ∷ rest) p = elim (read_text [] a) [
    | none ↦ done (invalid_params (txt "invalid address"))
    | some address ↦ elim (read_text [] b) [
      | none ↦ done (invalid_params (txt "invalid slot"))
      | some slot ↦ do
        value ← best_evm_storage w address (g.hash_hex slot) p
        done (result (text value))
    ]
  ]
  read_method Method.call params p = evm_call w g params p
  read_method Method.block_by_number params p =
      evm_block_object w g now (tag_param params) (flag_param params) p
  read_method Method.block_by_hash params p =
      with_text params done (txt "eth_getBlockByHash requires hash") (txt "invalid hash")
        (λ hash. evm_block_object_by_hash w g now hash (flag_param params) p)
  read_method Method.count_by_number params p = do
    idx ← build_explorer_index w p
    done (count_answer (block_by_tag w.atoi idx (tag_param params)))
  read_method Method.count_by_hash params p =
      with_text params done (txt "eth_getBlockTransactionCountByHash requires hash")
        (txt "invalid hash")
        (λ hash. do
          idx ← build_explorer_index w p
          done (count_answer (lookup (to_lower hash) idx.blocks_by_hash)))
  read_method Method.at_number_and_index params p =
      with_two params (txt "eth_getTransactionByBlockNumberAndIndex requires block and index")
        (λ tag index_raw. do
          idx ← build_explorer_index w p
          indexed_transaction w g (block_by_tag w.atoi idx tag) index_raw)
  read_method Method.at_hash_and_index params p =
      with_two params (txt "eth_getTransactionByBlockHashAndIndex requires block hash and index")
        (λ hash index_raw. do
          idx ← build_explorer_index w p
          indexed_transaction w g (lookup (to_lower hash) idx.blocks_by_hash) index_raw)
  read_method Method.by_hash params p =
      with_text params done (txt "eth_getTransactionByHash requires hash") (txt "invalid hash")
        (λ hash. transaction_by_hash w g hash p)
  read_method Method.receipt params p =
      with_text params done (txt "eth_getTransactionReceipt requires hash") (txt "invalid hash")
        (λ hash. transaction_receipt w g hash p)
  read_method Method.mining params p = done (result (boolean false))
  read_method Method.hashrate params p = done (result (text (txt "0x0")))
  read_method Method.gas_price params p = done (result (text evm_gas_price))
  read_method Method.estimate_gas params p = done (evm_estimate_gas params)
  read_method Method.get_logs params p = evm_get_logs w params p
  read_method Method.fee_history params p = evm_fee_history w params p
  read_method Method.send_transaction params p = done (
      rpc_error (negsuc 31999) (
        txt
          "eth_sendTransaction requires an unlocked node account; use wallet-signed eth_sendRawTransaction"))

  -- The case of eth_sendRawTransaction, once it has its text.
  unfoldable pub send_raw : Text → Peer → Run (Answer × Peer)
  send_raw raw p = do
    (reply, q) ← send_raw_transaction w s.evm_chain_id raw p
    done (
      elim reply [
        | Reply.result id ↦ result (text id)
        | Reply.rpc_error code message ↦ rpc_error code message
      ],
      q,
    )

  unfoldable pub handle_rpc : RpcRequest → Peer → Run (Answer × Peer)
  handle_rpc r p = elim (text_eq r.method (txt "eth_sendRawTransaction")) [
    | true ↦
        with_text r.params (λ a. done (a, p))
          (txt "eth_sendRawTransaction requires raw transaction") (txt "invalid raw transaction")
          (λ raw. send_raw raw p)
    | false ↦ elim (lookup r.method read_methods) [
      | none ↦ done (rpc_error (negsuc 32600) (txt "method not found"), p)
      | some method ↦ do a ← read_method method r.params p; done (a, p)
    ]
  ]
