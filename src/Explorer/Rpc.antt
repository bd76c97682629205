-- ===== src/Explorer/Rpc.antt =====
-- peer/peer.go and peer/runtime_ops.go: the methods of the Ethereum interface that find a block or a
-- transaction, count and take in transactions. Parameters are the decoded JSON texts.
pub mod Replies
use pokoinpos.Prelude.{
  ℕ, ◌+◌, ◌-◌, ◌*◌, ◌^◌, true, false, ◌||◌, ◌==◌, Option, none, some, List, [], ◌∷◌, if◌then◌else◌,
  length, drop, ltb,
}
use pokoinpos.Prelude.Int.{ℤ, pos, negsuc, pos_part, wrap, leb_ℤ, ltb_ℤ}
use pokoinpos.Prelude.Run.{Run, done, panic, ◌>>=◌}
use pokoinpos.Text.{Text, txt, text_eq, is_empty, trim_space, trim_prefix, has_prefix, to_lower}
use pokoinpos.Text.Hex.{hex_value}
use pokoinpos.GoMap.{lookup}
use pokoinpos.Tx.{SignedTransaction, NftPayload, AmmPayload}
use pokoinpos.Transaction.Make.{new_evm_transaction}
use pokoinpos.Peer.{Peer, Wire}
use pokoinpos.Peer.Mempool.{best_nonce_of, pending_nonce_of}
use pokoinpos.Peer.Best.{best_balance_of}
use pokoinpos.Peer.Make.{flood_pos_transaction}
use pokoinpos.Explorer.{
  ExplorerTx, ExplorerBlock, ExplorerIndex, build_explorer_index, signed_transaction_from_explorer,
}

-- strconv.ParseUint with the base 16, before its test of the range.
unfoldable pub hex_number : ℕ → Text → Option ℕ
hex_number n [] = some n
hex_number n (c ∷ s) = elim (hex_value c) [ none ↦ none | some d ↦ hex_number (n * 16 + d) s ]

unfoldable pub parse_hex_uint64 : Text → Option ℕ
parse_hex_uint64 value =
    let digits = trim_prefix (trim_space value) (txt "0x") in
    if is_empty digits then none else elim (hex_number 0 digits) [
      | none ↦ none
      | some n ↦ if ltb n (2 ^ 64) then some n else none
    ]

-- `idx.BlocksByNumber[height]`
unfoldable pub block_at : ExplorerIndex → ℤ → Option ExplorerBlock
block_at idx height =
    if ltb_ℤ height (pos 0)
    then none
    else elim (drop (pos_part height) idx.blocks_by_number) [ [] ↦ none | b ∷ rest ↦ some b ]

-- explorerBlockByTag, on the index. The conversion int(height) wraps around.
unfoldable pub block_by_tag : (Text → Option ℤ) → ExplorerIndex → Text → Option ExplorerBlock
block_by_tag atoi idx tag =
    if is_empty tag || text_eq tag (txt "latest")
    then block_at idx (pos idx.latest_height)
    else if text_eq tag (txt "earliest")
    then block_at idx (pos 0)
    else if has_prefix tag (txt "0x")
    then elim (parse_hex_uint64 tag) [ none ↦ none | some n ↦ block_at idx (wrap (pos n)) ]
    else elim (atoi tag) [ none ↦ none | some n ↦ block_at idx n ]

-- `block.Transactions[index]`; out of range panics.
unfoldable pub index_at : List ExplorerTx → ℕ → Run ExplorerTx
index_at txs index = elim (drop index txs) [ [] ↦ panic | tx ∷ rest ↦ done tx ]

-- The end of the two eth_getTransactionBy…AndIndex methods: the transaction of a block at an index.
unfoldable pub transaction_at : ExplorerBlock → Text → Run (Option ExplorerTx)
transaction_at b index_raw = elim (parse_hex_uint64 index_raw) [
  | none ↦ done none
  | some index ↦
      let tx = index_at b.transactions index in
      if leb_ℤ (pos (length b.transactions)) (wrap (pos index))
      then done none
      else (do found ← tx; done (some found))
]

-- evmFeeHistory: the number of blocks, at most 20, and the oldest of them.
unfoldable pub fee_block_count : Option Text → ℕ
fee_block_count none = 1
fee_block_count (some raw) = elim (parse_hex_uint64 raw) [
  | none ↦ 1
  | some n ↦ if n == 0 then 1 else if ltb 20 n then 20 else n
]

unfoldable pub oldest_block : ℕ → ℕ → ℕ
oldest_block height block_count =
    if ltb block_count (height + 1) then height + 1 - block_count else 0

-- The result of a method: a text, or the code and the message of an error.
pub data Reply : Type 0 where
  result : Text → Reply
  rpc_error : ℤ → Text → Reply

module _ (w : Wire) where
  -- eth_getTransactionCount
  unfoldable pub get_transaction_count : Text → Text → Peer → Run ℕ
  get_transaction_count given tag p =
      let address = to_lower given in
      if text_eq tag (txt "pending")
      then pending_nonce_of w p address
      else best_nonce_of w p address

  -- The end of eth_sendRawTransaction, on the nonces and the balance of the sender.
  unfoldable pub accept_raw : SignedTransaction → ℕ → ℕ → ℤ → Peer → Run (Reply × Peer)
  accept_raw t best pending balance p = elim (ltb t.nonce best || ltb pending t.nonce) [
    | true ↦ done (Reply.rpc_error (negsuc 31999) (txt "invalid nonce"), p)
    | false ↦ elim (ltb_ℤ balance t.amount) [
      | true ↦ done (Reply.rpc_error (negsuc 31999) (txt "insufficient funds"), p)
      | false ↦ do p' ← flood_pos_transaction w t p; done (Reply.result t.id, p')
    ]
  ]

  -- eth_sendRawTransaction; the text of a decoding error is not modelled.
  unfoldable pub send_raw_transaction : ℤ → Text → Peer → Run (Reply × Peer)
  send_raw_transaction chain raw p = elim (new_evm_transaction w.platform raw chain) [
    | none ↦ done (Reply.rpc_error (negsuc 31999) [], p)
    | some t ↦ do
      best ← best_nonce_of w p t.from
      pending ← pending_nonce_of w p t.from
      balance ← best_balance_of w t.from p
      accept_raw t best pending balance p
  ]

  module _ (nft_json : Option NftPayload → Option NftPayload)
      (amm_json : Option AmmPayload → Option AmmPayload) where
    unfoldable pub transaction_by_id : Text → Peer → Run (Option SignedTransaction)
    transaction_by_id tx_id p = do
      idx ← build_explorer_index w p
      done (elim (lookup (to_lower tx_id) idx.txs_by_hash) [
        | some tx ↦ some (signed_transaction_from_explorer nft_json amm_json tx)
        | none ↦ lookup tx_id p.mempool
      ])

    -- The transaction with its block's hash and number, and its index there.
    unfoldable pub transaction_location :
        Text → Peer → Run (Option (SignedTransaction × Text × ℕ × ℕ))
    transaction_location tx_id p = do
      idx ← build_explorer_index w p
      done (elim (lookup (to_lower tx_id) idx.txs_by_hash) [
        | some tx ↦ some (
          signed_transaction_from_explorer nft_json amm_json tx,
          tx.block_hash,
          tx.block_number,
          tx.transaction_index,
        )
        | none ↦ elim (lookup tx_id p.mempool) [ none ↦ none | some t ↦ some (t, [], 0, 0) ]
      ])
