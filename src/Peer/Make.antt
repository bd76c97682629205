-- ===== src/Peer/Make.antt =====
-- The methods that make a transaction with the key of the peer and flood it. The JSON of a
-- transaction is always made. The result is the transaction, where one was made.
use pokoinpos.Prelude.{Bool, true, false, ◌&&◌, ◌||◌, not, Option, none, some, length, ◌==◌}
use pokoinpos.Prelude.Int.{ℤ, pos, ltb_ℤ}
use pokoinpos.Prelude.Run.{Run, done, ◌>>=◌}
use pokoinpos.Text.{Text, txt, is_empty, trim_space, to_lower, has_prefix}
use pokoinpos.Tx.{SignedTransaction}
use pokoinpos.Crypto.{Account}
use pokoinpos.Assets.{pool_id}
use pokoinpos.Transaction.Make.{
  new_mint_transaction, new_signed_transaction, new_nft_mint_transaction,
  new_nft_transfer_transaction, new_asset_credit_transaction, new_asset_debit_transaction,
  new_amm_create_pool_transaction, new_amm_add_liquidity_transaction,
}
use pokoinpos.Peer.{Message, Peer, Wire}
use pokoinpos.Peer.Flood.{flood_network}
use pokoinpos.Peer.Mempool.{handle_pos_transaction}

-- `strings.TrimSpace(text) == ""`
abbrev pub is_blank : Text → Bool
is_blank text = is_empty (trim_space text)

-- The test of the two NFT methods on the transaction made.
unfoldable pub lacks_nft : SignedTransaction → Bool
lacks_nft t = elim t.nft [
  | none ↦ true
  | some nft ↦ is_empty nft.collection_id || is_empty nft.token_id
]

-- Whether a withdrawal goes to an EVM address.
unfoldable pub is_evm_address : Text → Bool
is_evm_address to = has_prefix to (txt "0x") && (length to == 42)

module _ (w : Wire) where
  -- The message that carries a transaction for a block.
  abbrev pub pos_message : SignedTransaction → Peer → Message
  pos_message t p = record {
    msg_type = txt "PoSTransaction";
    msg_id = t.id;
    from = p.id;
    payload = w.marshal_transaction t;
  }

  unfoldable pub flood_pos_transaction : SignedTransaction → Peer → Run Peer
  flood_pos_transaction t p = do
    (ok, p') ← handle_pos_transaction w (pos_message t p) p
    elim ok [ false ↦ done p' | true ↦ flood_network (pos_message t p) p' ]

  -- The end of the methods below.
  unfoldable pub flood_made : SignedTransaction → Peer → Run (Option SignedTransaction × Peer)
  flood_made t p = do p' ← flood_pos_transaction t p; done (some t, p')

  -- Their guard: a peer without a key, or a test that fails, makes no transaction.
  unfoldable pub make_if :
      Bool → (Account → SignedTransaction) → Peer → Run (Option SignedTransaction × Peer)
  make_if refused make p = elim p.miner [
    | none ↦ done (none, p)
    | some a ↦ elim refused [ true ↦ done (none, p) | false ↦ flood_made (make a) p ]
  ]

  unfoldable pub flood_mint_transaction :
      Text → Text → ℤ → Peer → Run (Option SignedTransaction × Peer)
  flood_mint_transaction id to amount p =
      make_if (ltb_ℤ amount (pos 1) || is_blank to)
        (λ a. new_mint_transaction w.platform id a (trim_space to) amount) p

  unfoldable pub flood_validator_withdraw_transaction :
      Text → Text → ℤ → Peer → Run (Option SignedTransaction × Peer)
  flood_validator_withdraw_transaction id given amount p =
      let to = to_lower (trim_space given) in
      make_if (ltb_ℤ amount (pos 1) || is_blank given || not (is_evm_address to))
        (λ a. new_signed_transaction w.platform id a to amount) p

  -- The two NFT methods test the transaction that they have made once more.
  unfoldable pub make_nft_if :
      Bool → (Account → SignedTransaction) → Peer → Run (Option SignedTransaction × Peer)
  make_nft_if refused make p = elim p.miner [
    | none ↦ done (none, p)
    | some a ↦ make_if (refused || lacks_nft (make a)) make p
  ]

  unfoldable pub flood_nft_mint_transaction :
      Text → Text → Text → Text → Text → Text → Text → Peer → Run (Option SignedTransaction × Peer)
  flood_nft_mint_transaction id collection token owner uri hash image p =
      make_nft_if (is_blank collection || is_blank token || is_blank owner)
        (λ a. new_nft_mint_transaction w.platform id a collection token owner uri hash image) p

  unfoldable pub flood_nft_transfer_transaction :
      Text → Text → Text → Text → Peer → Run (Option SignedTransaction × Peer)
  flood_nft_transfer_transaction id collection token to p =
      make_nft_if (is_blank collection || is_blank token || is_blank to)
        (λ a. new_nft_transfer_transaction w.platform id a collection token to) p

  unfoldable pub flood_asset_credit_transaction :
      Text → Text → Text → ℤ → Peer → Run (Option SignedTransaction × Peer)
  flood_asset_credit_transaction id asset to amount p =
      make_if (is_blank asset || is_blank to || ltb_ℤ amount (pos 1))
        (λ a. new_asset_credit_transaction w.platform id a asset to amount) p

  unfoldable pub flood_asset_debit_transaction :
      Text → Text → Text → ℤ → Peer → Run (Option SignedTransaction × Peer)
  flood_asset_debit_transaction id asset account amount p =
      make_if (is_blank asset || is_blank account || ltb_ℤ amount (pos 1))
        (λ a. new_asset_debit_transaction w.platform id a asset account amount) p

  unfoldable pub flood_amm_create_pool_transaction :
      Text → Text → Text → Peer → Run (Option SignedTransaction × Peer)
  flood_amm_create_pool_transaction id asset_a asset_b p =
      make_if (is_empty (pool_id asset_a asset_b))
        (λ a. new_amm_create_pool_transaction w.platform id a asset_a asset_b) p

  unfoldable pub flood_amm_add_liquidity_transaction :
      Text → Text → ℤ → ℤ → Peer → Run (Option SignedTransaction × Peer)
  flood_amm_add_liquidity_transaction id pool amount_a amount_b p =
      make_if (is_blank pool || ltb_ℤ amount_a (pos 1) || ltb_ℤ amount_b (pos 1))
        (λ a. new_amm_add_liquidity_transaction w.platform id a pool amount_a amount_b) p
