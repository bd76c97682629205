-- ===== src/Service/Admin.antt =====
-- peer/runtime_ops.go and peer/runtime_dashboard.go: the handlers below /admin, behind the token.
use pokoinpos.Prelude.{Bool, true, false, ◌||◌, Option, none, some, [], ◌∷◌, length}
use pokoinpos.Prelude.Int.{ℤ, pos, ltb_ℤ}
use pokoinpos.Prelude.Run.{Run, done, ◌>>=◌}
use pokoinpos.Text.{Text, txt, text_eq, is_empty, trim_space, to_lower}
use pokoinpos.Text.Decimal.{itoa}
use pokoinpos.Tx.{SignedTransaction}
use pokoinpos.Assets.{pool_id}
use pokoinpos.Peer.{Peer, Wire}
use pokoinpos.Peer.Make.{
  flood_mint_transaction, flood_validator_withdraw_transaction, flood_nft_mint_transaction,
  flood_nft_transfer_transaction, flood_asset_credit_transaction, flood_asset_debit_transaction,
  flood_amm_create_pool_transaction, flood_amm_add_liquidity_transaction,
}
use pokoinpos.Peer.Mine.{mine_one_slot}
use pokoinpos.Peer.Best.{mempool_summaries}
use pokoinpos.Service.{
  text, number, natural, boolean, items, literal, slice, mempool_tx, Request, json, failure,
  Gateway, Moment, OpsServer, with_token, is_post,
}
use pokoinpos.Service.Replies.{
  stable_nft_tx_id, dashed, Handled, accepted, paid_answer, nft_answer, amm_answer, nft_minted,
  nft_transferred, accounted, pool_created, liquidity_added, decoded,
}

-- The handlers behind the token.
pub data Action : Type 0 where
  mining mempool_list dashboard_state minting withdrawal : Action
  nft_minting nft_transferring pool_creation liquidity_addition crediting debiting : Action

module _ (w : Wire) (g : Gateway) (s : OpsServer) (now : Moment) where
  -- The body of mineSlot behind its guards.
  unfoldable pub mine_slot : Request → Peer → Handled
  mine_slot r p = elim (w.atoi (r.query (txt "slot"))) [
    | none ↦ done (failure 400 (txt "invalid_slot"), p)
    | some slot ↦ elim (ltb_ℤ slot (pos 1)) [
      | true ↦ done (failure 400 (txt "invalid_slot"), p)
      | false ↦ do
        (b, q) ← mine_one_slot w slot p
        done (
          json 200 (
              literal (
                (txt "slot", number slot)
                ∷ (txt "mined", boolean (elim b [ none ↦ false | some mined ↦ true ]))
                ∷ [])),
          q,
        )
    ]
  ]

  unfoldable pub admin_mempool : Peer → Handled
  admin_mempool p = do
    (txs, q) ← mempool_summaries w p
    done (
      json 200 (
          literal (
            (txt "count", natural (length txs))
            ∷ (txt "transactions", items (slice mempool_tx txs))
            ∷ [])),
      q,
    )

  unfoldable pub admin_dashboard_status : Peer → Handled
  admin_dashboard_status p = done (
    json 200 (
        literal (
          (txt "adminEnabled", boolean true)
          ∷ (txt "actions", items (slice text (txt "manual_mine" ∷ txt "mint" ∷ [])))
          ∷ (txt "chainId", number s.evm_chain_id)
          ∷ (txt "networkId", text s.evm_network_id)
          ∷ [])),
    p,
  )

  unfoldable pub mint : Request → Peer → Handled
  mint r p =
      decoded (g.decode_mint r.body)
        (λ req. is_empty (trim_space req.to) || ltb_ℤ req.amount (pos 1))
        (txt "invalid_mint_request") p
        (λ req.
          let to = trim_space req.to in
          accepted (failure 500 (txt "mint_failed")) paid_answer (
            flood_mint_transaction w
              (dashed (txt "mint" ∷ itoa now.unix_nano ∷ to ∷ itoa req.amount ∷ [])) to req.amount
              p))

  unfoldable pub withdraw : Request → Peer → Handled
  withdraw r p =
      decoded (g.decode_withdraw r.body)
        (λ req. is_empty (to_lower (trim_space req.to)) || ltb_ℤ req.amount (pos 1))
        (txt "invalid_withdraw_request") p
        (λ req.
          let to = to_lower (trim_space req.to) in
          accepted (failure 400 (txt "withdraw_failed")) paid_answer (
            flood_validator_withdraw_transaction w
              (dashed (txt "withdraw" ∷ itoa now.unix_nano ∷ to ∷ itoa req.amount ∷ [])) to
              req.amount p))

  unfoldable pub nft_mint : Request → Peer → Handled
  nft_mint r p =
      decoded (g.decode_nft_mint r.body)
        (λ req.
          is_empty (trim_space req.collection_id)
          || is_empty (trim_space req.token_id)
          || is_empty (trim_space req.owner))
        (txt "invalid_nft_mint_request") p
        (λ req.
          let collection = trim_space req.collection_id in
          let token = trim_space req.token_id in
          let owner = trim_space req.owner in
          let refused = failure 400 (txt "nft_mint_failed") in
          accepted refused (nft_answer refused nft_minted) (
            flood_nft_mint_transaction w
              (stable_nft_tx_id (
                txt "mint"
                ∷ now.stamp
                ∷ collection
                ∷ token
                ∷ owner
                ∷ req.metadata_uri
                ∷ req.metadata_hash
                ∷ req.image_uri
                ∷ []))
              collection token owner req.metadata_uri req.metadata_hash req.image_uri p))

  unfoldable pub nft_transfer : Request → Peer → Handled
  nft_transfer r p =
      decoded (g.decode_nft_transfer r.body)
        (λ req.
          is_empty (trim_space req.collection_id)
          || is_empty (trim_space req.token_id)
          || is_empty (trim_space req.to))
        (txt "invalid_nft_transfer_request") p
        (λ req.
          let collection = trim_space req.collection_id in
          let token = trim_space req.token_id in
          let to = trim_space req.to in
          let refused = failure 400 (txt "nft_transfer_failed") in
          accepted refused (nft_answer refused nft_transferred) (
            flood_nft_transfer_transaction w
              (stable_nft_tx_id (txt "transfer" ∷ now.stamp ∷ collection ∷ token ∷ to ∷ []))
              collection token to p))

  -- adminAssetAccounting, with the kind of its ids and the method that it calls.
  unfoldable pub admin_asset_accounting :
      Text
      → (Text → Text → Text → ℤ → Peer → Run (Option SignedTransaction × Peer))
      → Request
      → Peer
      → Handled
  admin_asset_accounting kind flood r p =
      decoded (g.decode_accounting r.body)
        (λ req.
          is_empty (trim_space req.asset)
          || is_empty (trim_space req.account)
          || ltb_ℤ req.amount (pos 1))
        (txt "invalid_asset_request") p
        (λ req.
          let asset = trim_space req.asset in
          let account = trim_space req.account in
          let refused = failure 400 (txt "asset_accounting_failed") in
          accepted refused (amm_answer refused accounted) (
            flood (dashed (kind ∷ itoa now.unix_nano ∷ asset ∷ account ∷ itoa req.amount ∷ []))
              asset account req.amount p))

  unfoldable pub admin_swap_pool : Request → Peer → Handled
  admin_swap_pool r p =
      decoded (g.decode_pool r.body) (λ req. is_empty (pool_id req.asset_a req.asset_b))
        (txt "invalid_pool_request") p
        (λ req.
          let refused = failure 400 (txt "pool_create_failed") in
          accepted refused (amm_answer refused pool_created) (
            flood_amm_create_pool_transaction w
              (dashed (txt "amm-pool" ∷ itoa now.unix_nano ∷ pool_id req.asset_a req.asset_b ∷ []))
              req.asset_a req.asset_b p))

  unfoldable pub admin_swap_add_liquidity : Request → Peer → Handled
  admin_swap_add_liquidity r p =
      decoded (g.decode_liquidity r.body)
        (λ req.
          is_empty (trim_space req.pool_id)
          || ltb_ℤ req.amount_a (pos 1)
          || ltb_ℤ req.amount_b (pos 1))
        (txt "invalid_liquidity_request") p
        (λ req.
          let refused = failure 400 (txt "liquidity_add_failed") in
          accepted refused (amm_answer refused liquidity_added) (
            flood_amm_add_liquidity_transaction w
              (dashed (
                txt "amm-liquidity"
                ∷ itoa now.unix_nano
                ∷ req.pool_id
                ∷ itoa req.amount_a
                ∷ itoa req.amount_b
                ∷ []))
              req.pool_id req.amount_a req.amount_b p))

  -- What an action does behind its guards.
  unfoldable pub act : Action → Request → Peer → Handled
  act Action.mining r p = mine_slot r p
  act Action.mempool_list r p = admin_mempool p
  act Action.dashboard_state r p = admin_dashboard_status p
  act Action.minting r p = mint r p
  act Action.withdrawal r p = withdraw r p
  act Action.nft_minting r p = nft_mint r p
  act Action.nft_transferring r p = nft_transfer r p
  act Action.pool_creation r p = admin_swap_pool r p
  act Action.liquidity_addition r p = admin_swap_add_liquidity r p
  act Action.crediting r p =
      admin_asset_accounting (txt "asset-credit") (flood_asset_credit_transaction w) r p
  act Action.debiting r p =
      admin_asset_accounting (txt "asset-debit") (flood_asset_debit_transaction w) r p

  -- The methods that an action answers.
  unfoldable pub allows : Action → Request → Bool
  allows Action.mempool_list r = text_eq r.method (txt "GET") || is_post r
  allows Action.dashboard_state r = text_eq r.method (txt "GET")
  allows _ r = is_post r

  unfoldable pub admin : Action → Request → Peer → Handled
  admin action r p = with_token s (allows action r) r p (act action r p)
