-- ===== src/Service/Keeps.antt =====
-- What the service does to a peer: an action behind the token floods transactions, mines a slot or
-- lists the mempool, or does nothing.
use pokoinpos.Prelude.{Bool, Option}
use pokoinpos.Prelude.Int.{ℤ, pos, ltb_ℤ}
use pokoinpos.Prelude.Run.{Run, After, After-return, After->>=, After-if, After-option}
use pokoinpos.Text.{Text, txt}
use pokoinpos.Tx.{SignedTransaction}
use pokoinpos.Crypto.{Account}
use pokoinpos.Peer.{Peer, Wire}
use pokoinpos.Peer.Mine.{mine_one_slot}
use pokoinpos.Peer.Best.{mempool_summaries}
use pokoinpos.Peer.Make.{
  flood_pos_transaction, flood_made, make_if, make_nft_if, flood_mint_transaction,
  flood_validator_withdraw_transaction, flood_nft_mint_transaction, flood_nft_transfer_transaction,
  flood_asset_credit_transaction, flood_asset_debit_transaction, flood_amm_create_pool_transaction,
  flood_amm_add_liquidity_transaction,
}
use pokoinpos.Service.{
  Request, Response, Gateway, Moment, OpsServer, is_admin_authorized, with_token,
}
use pokoinpos.Service.Replies.{accepted, decoded}
use pokoinpos.Service.Admin.{
  Action, mine_slot, admin_mempool, admin_dashboard_status, mint, withdraw, nft_mint, nft_transfer,
  admin_asset_accounting, admin_swap_pool, admin_swap_add_liquidity, act, allows, admin,
}

-- What holds of the peer that a run returns.
abbrev pub Leaves {ℓ} : {A : Type ℓ} → (Peer → Type 0) → Run (A × Peer) → Type 0
Leaves K m = After (λ r. K r.1) m

module _ (w : Wire) (g : Gateway) (s : OpsServer) (now : Moment) (K : Peer → Type 0)
    (floods : (t : SignedTransaction) (p : Peer) → K p → After K (flood_pos_transaction w t p))
    (mines : (slot : ℤ) (p : Peer) → K p → Leaves K (mine_one_slot w slot p))
    (lists : (p : Peer) → K p → Leaves K (mempool_summaries w p)) where
  make-lem :
      (refused : Bool) (make : Account → SignedTransaction) (p : Peer)
      → K p
      → Leaves K (make_if w refused make p)
  unfolding make_if flood_made After
  make-lem refused make p h =
      After-option (λ r. K r.1) p.miner _ _ h
        (λ a.
          After-if (λ r. K r.1) refused _ _
            (After->>= K (λ r. K r.1) (flood_pos_transaction w (make a) p) _ (floods (make a) p h)
              (λ q h'. h'))
            h)

  make_nft-lem :
      (refused : Bool) (make : Account → SignedTransaction) (p : Peer)
      → K p
      → Leaves K (make_nft_if w refused make p)
  unfolding make_nft_if After
  make_nft-lem refused make p h = After-option (λ r. K r.1) p.miner _ _ h (λ a. make-lem _ make p h)

  accepted-lem :
      (refused : Response) (answer : SignedTransaction → Response)
      (run : Run (Option SignedTransaction × Peer))
      → Leaves K run
      → Leaves K (accepted refused answer run)
  unfolding accepted After
  accepted-lem refused answer run h = After->>= (λ r. K r.1) (λ r. K r.1) run _ h (λ r h'. h')

  decoded-lem {ℓ} :
      {A : Type ℓ} (body : Option A) (wrong : A → Bool) (name : Text) (p : Peer)
      (then : A → Run (Response × Peer))
      → K p
      → ((req : A) → Leaves K (then req))
      → Leaves K (decoded body wrong name p then)
  unfolding decoded After
  decoded-lem body wrong name p then h k =
      After-option (λ r. K r.1) body _ _ h (λ req. After-if (λ r. K r.1) (wrong req) _ _ (k req) h)

  act-lem : (action : Action) (r : Request) (p : Peer) → K p → Leaves K (act w g s now action r p)
  unfolding act mine_slot admin_mempool admin_dashboard_status mint withdraw nft_mint nft_transfer
      admin_asset_accounting admin_swap_pool admin_swap_add_liquidity flood_mint_transaction
      flood_validator_withdraw_transaction flood_nft_mint_transaction flood_nft_transfer_transaction
      flood_asset_credit_transaction flood_asset_debit_transaction flood_amm_create_pool_transaction
      flood_amm_add_liquidity_transaction
  act-lem Action.mining r p h =
      let Q : Response × Peer → Type 0 = λ r. K r.1 in
      After-option Q (w.atoi (r.query (txt "slot"))) _ _ (After-return Q h) (λ slot.
        After-if Q (ltb_ℤ slot (pos 1)) _ _
          (After->>= (λ r. K r.1) Q (mine_one_slot w slot p) _ (mines slot p h)
            (λ q h'. After-return Q h'))
          (After-return Q h))
  act-lem Action.mempool_list r p h =
      let Q : Response × Peer → Type 0 = λ r. K r.1 in
      After->>= (λ r. K r.1) Q (mempool_summaries w p) _ (lists p h) (λ r h'. After-return Q h')
  act-lem Action.dashboard_state r p h =
      let Q : Response × Peer → Type 0 = λ r. K r.1 in After-return Q h
  act-lem Action.minting r p h =
      decoded-lem _ _ _ p _ h (λ req. accepted-lem _ _ _ (make-lem _ _ p h))
  act-lem Action.withdrawal r p h =
      decoded-lem _ _ _ p _ h (λ req. accepted-lem _ _ _ (make-lem _ _ p h))
  act-lem Action.nft_minting r p h =
      decoded-lem _ _ _ p _ h (λ req. accepted-lem _ _ _ (make_nft-lem _ _ p h))
  act-lem Action.nft_transferring r p h =
      decoded-lem _ _ _ p _ h (λ req. accepted-lem _ _ _ (make_nft-lem _ _ p h))
  act-lem Action.pool_creation r p h =
      decoded-lem _ _ _ p _ h (λ req. accepted-lem _ _ _ (make-lem _ _ p h))
  act-lem Action.liquidity_addition r p h =
      decoded-lem _ _ _ p _ h (λ req. accepted-lem _ _ _ (make-lem _ _ p h))
  act-lem Action.crediting r p h =
      decoded-lem _ _ _ p _ h (λ req. accepted-lem _ _ _ (make-lem _ _ p h))
  act-lem Action.debiting r p h =
      decoded-lem _ _ _ p _ h (λ req. accepted-lem _ _ _ (make-lem _ _ p h))

  pub admin-lem :
      (action : Action) (r : Request) (p : Peer) → K p → Leaves K (admin w g s now action r p)
  unfolding admin with_token After
  admin-lem action r p h =
      After-if (λ r. K r.1) (allows w g s now action r) _ _ h
        (After-if (λ r. K r.1) (is_admin_authorized s r) _ _ h (act-lem action r p h))
