-- ===== src/Tests/Transfers.antt =====
-- Transfers and mints that are signed with an RSA key.
use pokoinpos.Prelude.{◌≡◌, refl, true, false, ◌<◌, if◌then◌else◌, ◌∷◌, [], arith}
use pokoinpos.Prelude.Int.{pos, pos_part, leb_ℤ, ◌≤ℤ◌, add_int, sub_int, wrap, ◌+ℤ◌, ◌-ℤ◌}
use pokoinpos.Prelude.Run.{done}
use pokoinpos.Text.{txt, text_eq, has_prefix}
use pokoinpos.GoMap.{at, lookup, insert}
use pokoinpos.GoMap.Sum.{sum_by}
use pokoinpos.Base64
use pokoinpos.Tx.{SignedTransaction, is_amm, is_mint, is_evm, is_nft_mint, is_nft_transfer}
use pokoinpos.Crypto.{verify_signature, public_key_from_account_name}
use pokoinpos.Ledger.{Ledger, balance_of, is_native_validator_account}
use pokoinpos.Transaction.Apply.{
  transaction, mint_branch, mint_coins, transfer_branch, transfer_verified, transfer_coins,
}
use pokoinpos.Transaction.Verify.{verify, verify_native}
use pokoinpos.Transaction.Steps.{move_balance}
use pokoinpos.Transaction.Coins.{IsSolvent, coins}
use pokoinpos.Transaction.Failure.{transaction_refused}
use pokoinpos.Transaction.Supply.{
  coins_never_created, native_transfer_conserves, mint_raises_supply,
}
use pokoinpos.Tests.Data.{alice, wallet, toy, payment, funded, paid_ledger}

payment_applied : transaction toy payment funded ≡ done (true, payment, paid_ledger)
unfolding transaction is_amm is_nft_mint is_nft_transfer is_mint transfer_branch is_evm verify
    verify_native Base64.decode public_key_from_account_name verify_signature transfer_verified
    transfer_coins move_balance text_eq has_prefix lookup insert add_int sub_int wrap ◌+ℤ◌ ◌-ℤ◌
payment_applied = refl

plain_payment : is_amm payment ≡ false
unfolding is_amm has_prefix
plain_payment = refl

no_mint : is_mint payment ≡ false
unfolding is_mint text_eq
no_mint = refl

no_evm : is_evm payment ≡ false
unfolding is_evm text_eq has_prefix
no_evm = refl

funded-IsSolvent : IsSolvent funded
unfolding sum_by ◌+ℤ◌
funded-IsSolvent = ground arith

native_transfer_conserves_example : IsSolvent paid_ledger × (coins paid_ledger ≡ coins funded)
native_transfer_conserves_example =
    native_transfer_conserves toy payment payment funded paid_ledger plain_payment no_mint no_evm
      funded-IsSolvent payment_applied

coins_never_created_example : IsSolvent paid_ledger × (coins paid_ledger ≤ℤ coins funded)
coins_never_created_example =
    coins_never_created toy payment payment funded paid_ledger plain_payment no_mint
      funded-IsSolvent payment_applied

-- Ninety more than what is left.
abbrev overdraft : SignedTransaction
overdraft = record payment { amount = pos 160 }

overdraft_refused : transaction toy overdraft funded ≡ done (false, overdraft, funded)
unfolding transaction is_amm is_nft_mint is_nft_transfer is_mint transfer_branch is_evm verify
    verify_native Base64.decode public_key_from_account_name verify_signature transfer_verified
    transfer_coins text_eq has_prefix lookup
overdraft_refused = refl

transaction_refused_example : record funded { evm_accounts = funded.evm_accounts } ≡ funded
transaction_refused_example =
    transaction_refused toy overdraft funded (false, overdraft, funded) overdraft_refused refl

abbrev coinage : SignedTransaction
coinage = record payment { kind = txt "mint"; amount = pos 5; to = alice }

abbrev minted_ledger : Ledger
minted_ledger = record funded {
  accounts = (alice, pos 105) ∷ (wallet, pos 10) ∷ [];
  tx_history = (txt "t1", coinage) ∷ [];
}

coinage_applied : transaction toy coinage funded ≡ done (true, coinage, minted_ledger)
unfolding transaction is_amm is_nft_mint is_nft_transfer is_mint mint_branch is_evm verify
    verify_native Base64.decode public_key_from_account_name verify_signature mint_coins
    is_native_validator_account text_eq has_prefix lookup insert add_int wrap ◌+ℤ◌
coinage_applied = refl

coinage_plain : is_amm coinage ≡ false
unfolding is_amm has_prefix
coinage_plain = refl

coinage_no_nft_mint : is_nft_mint coinage ≡ false
unfolding is_nft_mint text_eq
coinage_no_nft_mint = refl

coinage_no_nft_transfer : is_nft_transfer coinage ≡ false
unfolding is_nft_transfer text_eq
coinage_no_nft_transfer = refl

coinage_mints : is_mint coinage ≡ true
unfolding is_mint text_eq
coinage_mints = refl

coinage_fits : pos_part (coins funded +ℤ pos 5) < 9223372036854775808
unfolding sum_by ◌+ℤ◌
coinage_fits = ground arith

mint_raises_supply_example :
    IsSolvent minted_ledger
    × (coins minted_ledger ≡ coins funded +ℤ pos 5)
    × (leb_ℤ (balance_of funded alice) (pos 0) ≡ false)
    × (at false alice minted_ledger.validators
        ≡ (if is_native_validator_account alice then true else at false alice funded.validators))
mint_raises_supply_example =
    mint_raises_supply toy coinage coinage funded minted_ledger coinage_plain coinage_no_nft_mint
      coinage_no_nft_transfer coinage_mints funded-IsSolvent coinage_fits coinage_applied
