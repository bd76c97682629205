-- ===== src/Transaction/Apply.antt =====
-- Transaction, with the branch of applyEVMContractTransactionLocked.
use pokoinpos.Prelude.{
  ℕ, Bool, true, false, ◌&&◌, ◌||◌, not, Option, none, some, [], ◌==◌, if◌then◌else◌,
}
use pokoinpos.Prelude.Int.{ℤ, pos, add_int, sub_int, leb_ℤ, ltb_ℤ}
use pokoinpos.Prelude.Run.{Run, done, panic, ◌>>=◌}
use pokoinpos.Text.{Text, is_empty, to_lower}
use pokoinpos.GoMap.{at, insert}
use pokoinpos.Tx.{SignedTransaction, is_evm, is_amm, is_mint, is_nft_mint, is_nft_transfer, is_some}
use pokoinpos.Ledger.{Ledger, balance_of, is_native_validator_account}
use pokoinpos.Evm.{EvmStateAdapter, new_evm_state_adapter, run_calls, evm_logs_from_types}
use pokoinpos.Platform.{Platform, EvmTransaction, EvmRun}
use pokoinpos.Transaction.Normal.{valid_nft_mint, valid_nft_transfer}
use pokoinpos.Transaction.Verify.{verify, decode_evm}
use pokoinpos.Transaction.Steps.{
  Applied, record_tx, advance_nonce, move_balance, mint_nft, transfer_nft,
}
use pokoinpos.Transaction.AmmActions.{apply_amm_transaction}

-- `l.Accounts[t.To] += t.Amount`, and a native receiver becomes a validator.
unfoldable pub mint_coins : SignedTransaction → Ledger → Ledger
mint_coins t l =
    let l' = record_tx t l in
    record l' {
      accounts = insert t.to (add_int (balance_of l t.to) t.amount) l.accounts;
      validators =
          if is_native_validator_account t.to then insert t.to true l.validators else l.validators;
    }

-- The end of Transaction: the test for an overdraft and the move of the amount.
unfoldable pub transfer_coins : SignedTransaction → Ledger → Bool × Ledger
transfer_coins t l =
    if ltb_ℤ (balance_of l t.from) t.amount
    then (false, l)
    else let l' = move_balance t.from t.to t.amount (record_tx t l) in
      (true, if is_evm t then advance_nonce t l' else l')

-- What the machine's run does to the ledger, failed or not: the adapter writes into it.
abbrev pub with_accounts : EvmStateAdapter → Ledger → Ledger
with_accounts s l = record l { evm_accounts = s.accounts }

-- `if t.Amount > 0 { … }` after a run that went through.
unfoldable pub contract_value : SignedTransaction → Option Text → Ledger → Ledger
contract_value t to l =
    if ltb_ℤ (pos 0) t.amount
    then (let l' : Ledger = record l {
      accounts = insert t.from (sub_int (balance_of l t.from) t.amount) l.accounts;
    } in
        elim to [
          | none ↦ l'
          | some addr ↦
              let key = to_lower addr in
              record l' { accounts = insert key (add_int (balance_of l' key) t.amount) l'.accounts }
        ])
    else l

-- The writes after a run that went through.
unfoldable pub contract_done :
    SignedTransaction → Option Text → EvmRun → EvmStateAdapter → Ledger → Ledger
unfolding contract_value
contract_done t to run s l =
    let l' = record_tx t (advance_nonce t (contract_value t to (with_accounts s l))) in
    record l' {
      evm_receipts =
          insert (to_lower t.id)
            (record {
              transaction_hash = to_lower t.id;
              contract_address = elim to [ none ↦ to_lower run.created | some addr ↦ [] ];
              gas_used = run.gas_used;
              logs = evm_logs_from_types s.logs;
              status = 1;
            })
            l'.evm_receipts;
    }

-- `uint256.FromBig` overflows.
abbrev overflows : Option ℤ → Bool
overflows none = false
overflows (some (pos n)) = not (
    ltb_ℤ (pos n)
      (pos 115792089237316195423570985008687907853269984665640564039457584007913129639936))
overflows (some v) = false

abbrev pub gas_limit : EvmTransaction → ℕ
gas_limit tx = if tx.gas == 0 then 5000000 else tx.gas

module _ (pf : Platform) where
  unfoldable pub evm_run : SignedTransaction → EvmTransaction → Ledger → EvmRun
  evm_run t tx l = elim tx.to [
    | none ↦ pf.evm_create l.evm_accounts t.from tx (gas_limit tx)
    | some to ↦ pf.evm_call l.evm_accounts t.from to tx (gas_limit tx)
  ]

  -- `tx.To() != nil && len(tx.Data()) == 0`
  abbrev plain_transfer : EvmTransaction → Bool
  plain_transfer tx = is_some tx.to && is_empty tx.payload

  -- applyEVMContractTransactionLocked; `none` is its result nil, with which the caller goes on.
  unfoldable pub apply_evm_contract_transaction :
      SignedTransaction → Ledger → Option (Bool × Ledger)
  apply_evm_contract_transaction t l = elim (decode_evm pf t) [
    | none ↦ some (false, l)
    | some tx ↦
        if plain_transfer tx
        then none
        else if ltb_ℤ (pos 0) t.amount && ltb_ℤ (balance_of l t.from) t.amount
        then some (false, l)
        else if overflows tx.value
        then some (false, l)
        else let run = evm_run t tx l in
          let s = run_calls run.calls (new_evm_state_adapter l.evm_accounts) in
          if run.failed
          then some (false, with_accounts s l)
          else some (true, contract_done t tx.to run s l)
  ]

  -- What Transaction does once Verify has passed, for a transfer.
  unfoldable pub transfer_verified : SignedTransaction → Ledger → Bool × Ledger
  unfolding transfer_coins
  transfer_verified t l =
      if is_evm t && not (at 0 t.from l.nonces == t.nonce)
      then (false, l)
      else let contract = apply_evm_contract_transaction t l in
        if is_evm t && not (is_empty t.raw)
        then elim contract [ none ↦ transfer_coins t l | some r ↦ r ]
        else transfer_coins t l

  unfoldable pub nft_mint_branch : SignedTransaction → Ledger → Run Applied
  nft_mint_branch t l =
      let (valid, t₁) = valid_nft_mint t in
      if not valid then done (false, t₁, l) else do
        (ok, t₂) ← verify pf t₁ t₁.from
        if not ok
            then done (false, t₂, l)
            else elim t₂.nft [ none ↦ panic | some nft ↦ done (mint_nft t₂ nft l) ]

  unfoldable pub nft_transfer_branch : SignedTransaction → Ledger → Run Applied
  nft_transfer_branch t l =
      let (valid, t₁) = valid_nft_transfer t in
      if not valid then done (false, t₁, l) else do
        (ok, t₂) ← verify pf t₁ t₁.from
        if not ok
            then done (false, t₂, l)
            else elim t₂.nft [ none ↦ panic | some nft ↦ done (transfer_nft t₂ nft l) ]

  unfoldable pub mint_branch : SignedTransaction → Ledger → Run Applied
  mint_branch t l =
      if ltb_ℤ t.amount (pos 1) || leb_ℤ (balance_of l t.from) (pos 0)
      then done (false, t, l)
      else do
        (ok, t₁) ← verify pf t t.from
        done (if ok then (true, t₁, mint_coins t₁ l) else (false, t₁, l))

  unfoldable pub transfer_branch : SignedTransaction → Ledger → Run Applied
  transfer_branch t l =
      if ltb_ℤ t.amount (pos 0) || (not (is_evm t) && ltb_ℤ t.amount (pos 1))
      then done (false, t, l)
      else do
        (ok, t₁) ← verify pf t t.from
        let (applied, l') = transfer_verified t₁ l
        done (if ok then (applied, t₁, l') else (false, t₁, l))

  unfoldable pub transaction : SignedTransaction → Ledger → Run Applied
  transaction t l =
      if is_amm t
      then apply_amm_transaction pf t l
      else if is_nft_mint t
      then nft_mint_branch t l
      else if is_nft_transfer t
      then nft_transfer_branch t l
      else if is_mint t
      then mint_branch t l
      else transfer_branch t l
