-- ===== src/Transaction/Replay.antt =====
-- The nonces of Ethereum transfers and contract calls through Transaction.
use pokoinpos.Prelude.{
  ℕ, ◌+◌, ◌%◌, ◌^◌, ◌≡◌, Bool, true, false, Option, some, arith, inl, inr, Option-cases, ◌==◌,
}
use pokoinpos.Prelude.Run.{done, Run-cases}
use pokoinpos.Text.{Text, text_eq_refl}
use pokoinpos.GoMap.{Map, at, insert, lookup-insert}
use pokoinpos.Tx.{SignedTransaction, is_evm, is_amm, is_mint, is_nft_mint, is_nft_transfer}
use pokoinpos.Ledger.{Ledger}
use pokoinpos.Platform.{Platform, EvmRun}
use pokoinpos.Evm.{EvmStateAdapter, run_calls, new_evm_state_adapter}
use pokoinpos.Transaction.Verify.{verify, verify_evm, decode_evm}
use pokoinpos.Transaction.Steps.{Applied, move_balance}
use pokoinpos.Transaction.Apply.{
  transfer_coins, transfer_verified, apply_evm_contract_transaction, contract_done, evm_run,
  transfer_branch, transaction,
}

-- The nonce that the ledger keeps for an account.
abbrev pub nonce_of : Ledger → Text → ℕ
nonce_of l account = at 0 account l.nonces

at-insert_self : (k : Text) (n : ℕ) (m : Map ℕ) → at 0 k (insert k n m) ≡ n
at-insert_self k n m = ground (arith, lookup-insert k k n m, text_eq_refl k)

-- A nonce that was counted up is another one, also where it wraps around.
nonce_moves : (n : ℕ) → ((n + 1) % 2 ^ 64 == n) ≡ false
nonce_moves n = ground arith

contract_done-nonces :
    (t : SignedTransaction) (to : Option Text) (run : EvmRun) (s : EvmStateAdapter) (l : Ledger)
    → (contract_done t to run s l).nonces ≡ insert t.from ((t.nonce + 1) % 2 ^ 64) l.nonces
unfolding contract_done
contract_done-nonces t to run s l = ground arith

transfer_nonce :
    (t : SignedTransaction) (l l' : Ledger)
    → is_evm t ≡ true
    → transfer_coins t l ≡ (true, l')
    → nonce_of l' t.from ≡ (t.nonce + 1) % 2 ^ 64
unfolding transfer_coins move_balance
transfer_nonce t l l' evm e =
    ground (arith, at-insert_self t.from ((t.nonce + 1) % 2 ^ 64) l.nonces)

module _ (pf : Platform) where
  contract_nonce :
      (t : SignedTransaction) (l l' : Ledger)
      → apply_evm_contract_transaction pf t l ≡ some (true, l')
      → nonce_of l' t.from ≡ (t.nonce + 1) % 2 ^ 64
  unfolding apply_evm_contract_transaction
  contract_nonce t l l' e = elim (Option-cases (decode_evm pf t)) [
    | inl missing ↦ ground arith
    | inr (tx, found) ↦
        let run = evm_run pf t tx l in
        let s = run_calls run.calls (new_evm_state_adapter l.evm_accounts) in
        ground (
          arith,
          contract_done-nonces t tx.to run s l,
          at-insert_self t.from ((t.nonce + 1) % 2 ^ 64) l.nonces,
        )
  ]

  -- Verify leaves a transaction that is no swap as it is.
  pub verify_same :
      (t t' : SignedTransaction) (account : Text) (ok : Bool)
      → is_amm t ≡ false
      → verify pf t account ≡ done (ok, t')
      → t' ≡ t
  unfolding verify verify_evm
  verify_same t t' account ok plain e = ground arith

  verified_nonce :
      (t : SignedTransaction) (l l' : Ledger)
      → is_evm t ≡ true
      → transfer_verified pf t l ≡ (true, l')
      → nonce_of l' t.from ≡ (t.nonce + 1) % 2 ^ 64
  unfolding transfer_verified
  verified_nonce t l l' evm e = elim (Option-cases (apply_evm_contract_transaction pf t l)) [
    | inl none_yet ↦ ground (arith, transfer_nonce t l l' evm)
    | inr ((ok, l₁), found) ↦ ground (arith, transfer_nonce t l l' evm, contract_nonce t l l')
  ]

  -- With another nonce on the ledger a transaction of a wallet is refused.
  stale_refused :
      (t : SignedTransaction) (l : Ledger)
      → is_evm t ≡ true
      → (nonce_of l t.from == t.nonce) ≡ false
      → transfer_verified pf t l ≡ (false, l)
  unfolding transfer_verified
  stale_refused t l evm stale = ground arith

  branch_once :
      (t t' : SignedTransaction) (l l' : Ledger) (r : Applied)
      → is_evm t ≡ true
      → is_amm t ≡ false
      → transfer_branch pf t l ≡ done (true, t', l')
      → transfer_branch pf t l' ≡ done r
      → r.0 ≡ false
  unfolding transfer_branch
  branch_once t t' l l' r evm plain e again = elim (Run-cases (verify pf t t.from)) [
    | inl p ↦ ground arith
    | inr ((ok, t₁), p) ↦ ground (
      arith,
      verify_same t t₁ t.from ok plain p,
      verified_nonce t l l' evm,
      nonce_moves t.nonce,
      stale_refused t l' evm,
    )
  ]

  -- Once an Ethereum transfer or contract call was applied, applying it again to the ledger that it
  -- left is refused: its nonce is used up, also where the counter wraps around.
  pub wallet_transaction_once :
      (t t' : SignedTransaction) (l l' : Ledger) (r : Applied)
      → is_evm t ≡ true
      → is_amm t ≡ false
      → is_mint t ≡ false
      → is_nft_mint t ≡ false
      → is_nft_transfer t ≡ false
      → transaction pf t l ≡ done (true, t', l')
      → transaction pf t l' ≡ done r
      → r.0 ≡ false
  unfolding transaction
  wallet_transaction_once t t' l l' r evm plain m nm nt e again =
      ground (arith, branch_once t t' l l' r evm plain)
