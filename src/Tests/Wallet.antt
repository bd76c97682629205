-- ===== src/Tests/Wallet.antt =====
-- A transfer that a wallet signed, applied twice.
use pokoinpos.Prelude.{Bool, some, ◌≡◌, refl, true, false}
use pokoinpos.Prelude.Int.{pos, add_int, sub_int, wrap, ◌+ℤ◌, ◌-ℤ◌, ◌*ℤ◌}
use pokoinpos.Prelude.Run.{done}
use pokoinpos.Text.{txt, trim_space, text_eq, has_prefix, trim_prefix, equal_fold, to_lower}
use pokoinpos.GoMap.{lookup, insert}
use pokoinpos.Tx.{SignedTransaction, is_amm, is_mint, is_evm, is_nft_mint, is_nft_transfer}
use pokoinpos.Transaction.Apply.{
  transaction, transfer_branch, transfer_verified, apply_evm_contract_transaction, transfer_coins,
}
use pokoinpos.Transaction.Verify.{verify, verify_evm, decode_evm}
use pokoinpos.Transaction.Steps.{move_balance}
use pokoinpos.Transaction.Normal.{decode_pokoin_swap_calldata}
use pokoinpos.Transaction.Make.{new_evm_transaction, of_evm, whole_amount}
use pokoinpos.Transaction.Wallet.{new_evm_transaction-verify}
use pokoinpos.Transaction.Replay.{wallet_transaction_once}
use pokoinpos.Tests.Data.{wallet, toy, wallet_payment, funded, wallet_paid_ledger}

wallet_payment_applied :
    transaction toy wallet_payment funded ≡ done (true, wallet_payment, wallet_paid_ledger)
unfolding transaction is_amm is_nft_mint is_nft_transfer is_mint transfer_branch is_evm verify
    verify_evm decode_evm transfer_verified apply_evm_contract_transaction transfer_coins
    move_balance text_eq has_prefix trim_prefix equal_fold to_lower lookup insert add_int sub_int
    wrap ◌+ℤ◌ ◌-ℤ◌ ◌*ℤ◌
wallet_payment_applied = refl

wallet_payment_again :
    transaction toy wallet_payment wallet_paid_ledger
    ≡ done (false, wallet_payment, wallet_paid_ledger)
unfolding transaction is_amm is_nft_mint is_nft_transfer is_mint transfer_branch is_evm verify
    verify_evm decode_evm transfer_verified apply_evm_contract_transaction transfer_coins text_eq
    has_prefix trim_prefix equal_fold to_lower lookup ◌*ℤ◌
wallet_payment_again = refl

wallet_is_evm : is_evm wallet_payment ≡ true
unfolding is_evm text_eq
wallet_is_evm = refl

wallet_plain : is_amm wallet_payment ≡ false
unfolding is_amm has_prefix
wallet_plain = refl

wallet_no_mint : is_mint wallet_payment ≡ false
unfolding is_mint text_eq
wallet_no_mint = refl

wallet_no_nft_mint : is_nft_mint wallet_payment ≡ false
unfolding is_nft_mint text_eq
wallet_no_nft_mint = refl

wallet_no_nft_transfer : is_nft_transfer wallet_payment ≡ false
unfolding is_nft_transfer text_eq
wallet_no_nft_transfer = refl

wallet_transaction_once_example : ◌≡◌ {A = Bool} false false
wallet_transaction_once_example =
    wallet_transaction_once toy wallet_payment wallet_payment funded wallet_paid_ledger
      (false, wallet_payment, wallet_paid_ledger) wallet_is_evm wallet_plain wallet_no_mint
      wallet_no_nft_mint wallet_no_nft_transfer wallet_payment_applied wallet_payment_again

-- The transaction that is made of the raw bytes of the wallet's transfer.
abbrev wallet_made : SignedTransaction
wallet_made = record wallet_payment { id = txt "0xt1"; raw = txt "0xf8" }

wallet_transfer_made : new_evm_transaction toy (txt " 0xf8") (pos 26) ≡ some wallet_made
unfolding new_evm_transaction of_evm whole_amount decode_pokoin_swap_calldata has_prefix trim_prefix
    trim_space to_lower
wallet_transfer_made = refl

made_is_plain : is_amm wallet_made ≡ false
unfolding is_amm has_prefix
made_is_plain = refl

new_evm_transaction-verify_example : verify toy wallet_made wallet ≡ done (true, wallet_made)
new_evm_transaction-verify_example =
    new_evm_transaction-verify toy (txt " 0xf8") (pos 26) wallet_made wallet_transfer_made
      made_is_plain refl
