-- ===== src/Transaction/AmmActions.antt =====
-- applyAMMTransactionLocked: one definition for each case of its switch, on a transaction that is
-- normalised and authentic.
use pokoinpos.Prelude.{Bool, true, false, ◌||◌, ◌&&◌, ◌==◌, not, none, some, if◌then◌else◌}
use pokoinpos.Prelude.Int.{ℤ, pos, add_int, ltb_ℤ}
use pokoinpos.Prelude.Run.{Run, done, panic, ◌>>=◌}
use pokoinpos.Text.{txt, is_empty, text_eq}
use pokoinpos.GoMap.{lookup, has, at, insert}
use pokoinpos.Tx.{SignedTransaction, AmmPayload, AmmPool, is_evm}
use pokoinpos.Assets.{asset_pkn, normalize_asset, normalize_pool_id, pool_id}
use pokoinpos.Amm.{amm_fee_bps, quote_swap, apply_swap}
use pokoinpos.Ledger.{Ledger, is_operator, credit_asset, debit_asset, can_debit_asset}
use pokoinpos.Platform.{Platform}
use pokoinpos.Transaction.Normal.{valid_amm}
use pokoinpos.Transaction.Verify.{verify}
use pokoinpos.Transaction.Steps.{Applied, record_tx, advance_nonce}

-- The guard of asset_credit and asset_debit.
unfoldable pub accounting_refused : SignedTransaction → AmmPayload → Ledger → Bool
accounting_refused t a l =
    not (is_operator l t.from)
    || is_empty t.to
    || text_eq a.asset asset_pkn
    || ltb_ℤ a.amount (pos 1)

unfoldable pub asset_credit : SignedTransaction → AmmPayload → Ledger → Applied
unfolding accounting_refused
asset_credit t a l =
    if accounting_refused t a l
    then (false, t, l)
    else (true, t, credit_asset l a.asset t.to a.amount)

unfoldable pub asset_debit : SignedTransaction → AmmPayload → Ledger → Applied
unfolding accounting_refused
asset_debit t a l =
    if accounting_refused t a l
    then (false, t, l)
    else let (paid, l') = debit_asset l a.asset t.to a.amount in
      if paid then (true, t, l') else (false, t, l)

abbrev pub fresh_pool : SignedTransaction → AmmPayload → AmmPool
fresh_pool t a = record {
  id = pool_id a.asset_a a.asset_b;
  asset_a = normalize_asset a.asset_a;
  asset_b = normalize_asset a.asset_b;
  reserve_a = pos 0;
  reserve_b = pos 0;
  fee_bps = amm_fee_bps;
  created_tx = t.id;
  last_tx = t.id;
}

unfoldable pub amm_create_pool : SignedTransaction → AmmPayload → Ledger → Applied
amm_create_pool t a l =
    let id = pool_id a.asset_a a.asset_b in
    if not (is_operator l t.from) || is_empty id || has id l.amm_pools
    then (false, t, l)
    else (true, t, record l { amm_pools = insert id (fresh_pool t a) l.amm_pools })

-- Both debits, whose results the code ignores, and the write of the pool.
unfoldable pub deposit_liquidity : SignedTransaction → AmmPayload → AmmPool → Ledger → Ledger
deposit_liquidity t a pool l =
    let l₁ = (debit_asset l pool.asset_a t.from a.amount_a).1 in
    let l₂ = (debit_asset l₁ pool.asset_b t.from a.amount_b).1 in
    let pool' : AmmPool = record pool {
      reserve_a = add_int pool.reserve_a a.amount_a;
      reserve_b = add_int pool.reserve_b a.amount_b;
      last_tx = t.id;
    } in
    record l₂ { amm_pools = insert pool.id pool' l₂.amm_pools }

unfoldable pub amm_add_liquidity : SignedTransaction → AmmPayload → Ledger → Applied
unfolding deposit_liquidity
amm_add_liquidity t a l =
    if not (is_operator l t.from) || ltb_ℤ a.amount_a (pos 1) || ltb_ℤ a.amount_b (pos 1)
    then (false, t, l)
    else elim (lookup (normalize_pool_id a.pool_id) l.amm_pools) [
      | none ↦ (false, t, l)
      | some pool ↦
          if not (can_debit_asset l pool.asset_a t.from a.amount_a)
            || not (can_debit_asset l pool.asset_b t.from a.amount_b)
          then (false, t, l)
          else (true, t, deposit_liquidity t a pool l)
    ]

-- The end of amm_swap, for the amount that was quoted.
unfoldable pub swap_paid : SignedTransaction → AmmPayload → AmmPool → ℤ → Ledger → Applied
swap_paid t a pool amount_out l =
    let l₁ = (debit_asset l a.asset_in t.from a.amount_in).1 in
    let (moved, pool') = apply_swap pool a.asset_in a.amount_in amount_out in
    let l₂ = credit_asset l₁ a.asset_out t.from amount_out in
    let t' : SignedTransaction = record t { amm = some (record a { amount_out = amount_out }) } in
    if moved
    then (
      true,
      t',
      record l₂ { amm_pools = insert pool'.id (record pool' { last_tx = t.id }) l₂.amm_pools },
    )
    else (false, t, l₁)

unfoldable pub swap_on : SignedTransaction → AmmPayload → AmmPool → Ledger → Run Applied
unfolding swap_paid
swap_on t a pool l = do
  quote ← quote_swap pool a.asset_in a.amount_in
  elim quote [
    | none ↦ done (false, t, l)
    | some amount_out ↦
        if ltb_ℤ amount_out a.min_amount_out
          || ltb_ℤ amount_out (pos 1)
          || not (can_debit_asset l a.asset_in t.from a.amount_in)
        then done (false, t, l)
        else done (swap_paid t a pool amount_out l)
  ]

unfoldable pub amm_swap : SignedTransaction → AmmPayload → Ledger → Run Applied
unfolding swap_on
amm_swap t a l =
    if ltb_ℤ a.amount_in (pos 1) || ltb_ℤ a.min_amount_out (pos 0)
    then done (false, t, l)
    else elim (lookup (normalize_pool_id a.pool_id) l.amm_pools) [
      | none ↦ done (false, t, l)
      | some pool ↦ swap_on t a pool l
    ]

-- The switch on the action.
unfoldable pub amm_action : SignedTransaction → AmmPayload → Ledger → Run Applied
amm_action t a l =
    if text_eq a.action (txt "asset_credit")
    then done (asset_credit t a l)
    else if text_eq a.action (txt "asset_debit")
    then done (asset_debit t a l)
    else if text_eq a.action (txt "amm_create_pool")
    then done (amm_create_pool t a l)
    else if text_eq a.action (txt "amm_add_liquidity")
    then done (amm_add_liquidity t a l)
    else if text_eq a.action (txt "amm_swap")
    then amm_swap t a l
    else done (false, t, l)

-- What follows the switch: the history, and the nonce of an Ethereum sender.
unfoldable pub finish : Applied → Applied
finish (applied, t, l) =
    if applied
    then (true, t, if is_evm t then advance_nonce t (record_tx t l) else record_tx t l)
    else (false, t, l)

-- The nonce test in front of the switch, and the switch.
unfoldable pub amm_checked : SignedTransaction → Ledger → Run Applied
unfolding amm_action finish
amm_checked t l = elim t.amm [
  | none ↦ panic
  | some a ↦
      if is_evm t && not (at 0 t.from l.nonces == t.nonce)
      then done (false, t, l)
      else do r ← amm_action t a l; done (finish r)
]

module _ (pf : Platform) where
  unfoldable pub apply_amm_transaction : SignedTransaction → Ledger → Run Applied
  unfolding amm_checked
  apply_amm_transaction t l =
      let (valid, t₁) = valid_amm t in
      if not valid
      then done (false, t₁, l)
      else do (ok, t₂) ← verify pf t₁ t₁.from; if ok then amm_checked t₂ l else done (false, t₂, l)
