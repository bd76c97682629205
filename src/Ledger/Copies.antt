-- ===== src/Ledger/Copies.antt =====
-- The copies of a ledger's maps that its readers get, and its readers of the EVM accounts.
use pokoinpos.Prelude.{Bool, [], ◌∷◌, if◌then◌else◌}
use pokoinpos.Prelude.Int.{ℤ}
use pokoinpos.Text.{Text, txt, is_empty, to_lower}
use pokoinpos.GoMap.{Map, at, insert}
use pokoinpos.Tx.{SignedTransaction, NftToken, AmmPool}
use pokoinpos.Ledger.{Ledger, EvmAccount, copy_accounts_pretty}
use pokoinpos.Evm.{evm_code}

-- The loop `for k, v := range m { out[k] = v }`.
unfoldable pub copy_into {ℓ} : {V : Type ℓ} → Map V → Map V → Map V
copy_into [] out = out
copy_into ((k, v) ∷ m) out = copy_into m (insert k v out)

unfoldable pub copy_accounts : Ledger → Map ℤ
copy_accounts l = copy_accounts_pretty l []

unfoldable pub copy_validators : Ledger → Map Bool
copy_validators l = copy_into l.validators []

-- The outer loop of CopyAssetBalances, which copies the inner maps too.
unfoldable pub copy_balances : Map (Map ℤ) → Map (Map ℤ) → Map (Map ℤ)
copy_balances [] out = out
copy_balances ((asset, balances) ∷ m) out =
    copy_balances m (insert asset (copy_into balances []) out)

unfoldable pub copy_asset_balances : Ledger → Map (Map ℤ)
copy_asset_balances l = copy_balances l.asset_balances []

unfoldable pub copy_amm_pools : Ledger → Map AmmPool
copy_amm_pools l = copy_into l.amm_pools []

unfoldable pub copy_transactions : Ledger → Map SignedTransaction
copy_transactions l = copy_into l.tx_history []

unfoldable pub copy_nfts : Ledger → Map NftToken
copy_nfts l = copy_into l.nfts []

-- The loop of CopyEVMAccounts, which copies each storage too.
unfoldable pub copy_accounts_into : Map EvmAccount → Map EvmAccount → Map EvmAccount
copy_accounts_into [] out = out
copy_accounts_into ((address, a) ∷ m) out =
    copy_accounts_into m (insert address (record a { storage = copy_into a.storage [] }) out)

unfoldable pub copy_evm_accounts : Ledger → Map EvmAccount
copy_evm_accounts l = copy_accounts_into l.evm_accounts []

-- The word of 32 zero bytes, as text.
abbrev pub zero_word : Text
zero_word = txt "0x0000000000000000000000000000000000000000000000000000000000000000"

unfoldable pub get_evm_code : Ledger → Text → Text
get_evm_code l address = evm_code l.evm_accounts address

abbrev no_account : EvmAccount
no_account = record { nonce = 0; balance = []; code = []; storage = [] }

unfoldable pub get_evm_storage : Ledger → Text → Text → Text
get_evm_storage l address slot =
    let value = at [] (to_lower slot) (at no_account (to_lower address) l.evm_accounts).storage in
    if is_empty value then zero_word else value
