-- ===== src/Ledger.antt =====
-- peer/account/ledger.go and the balance helpers of peer/account/transaction.go: the state that a
-- chain of blocks computes. Every method of the source holds the ledger's lock from its first line to
-- its return, so a method is one step on this record.
pub mod Books
pub mod Copies
use pokoinpos.Prelude.{
  ℕ, Bool, true, false, ◌&&◌, ◌||◌, not, Option, none, some, List, [], ◌∷◌, if◌then◌else◌, length,
}
use pokoinpos.Prelude.Int.{ℤ, pos, add_int, sub_int, mul_int, div_int, leb_ℤ, ltb_ℤ, eqb_ℤ}
use pokoinpos.Prelude.Run.{Run, done, ◌>>=◌}
use pokoinpos.Text.{Text, txt, is_empty, text_eq, to_lower}
use pokoinpos.GoMap.{Map, lookup, has, at, insert}
use pokoinpos.Base64
use pokoinpos.Tx.{SignedTransaction, NftToken, AmmPool, is_some}
use pokoinpos.Assets.{
  asset_pkn, normalize_asset, normalize_asset_account, normalize_pool_id, nft_key, same_nft_account,
}

-- `storage` is nil or a map; a nil map reads as an empty one.
pub record EvmAccount : Type 0 where
  pub nonce : ℕ
  pub balance : Text
  pub code : Text
  pub storage : Map Text

pub record EvmLog : Type 0 where
  pub address : Text
  pub topics : List Text
  pub payload : Text

pub record EvmReceipt : Type 0 where
  pub transaction_hash : Text
  pub contract_address : Text
  pub gas_used : ℕ
  pub logs : List EvmLog
  pub status : ℕ

pub record Ledger : Type 0 where
  pub accounts : Map ℤ
  pub nonces : Map ℕ
  pub validators : Map Bool
  pub nfts : Map NftToken
  pub asset_balances : Map (Map ℤ)
  pub amm_pools : Map AmmPool
  pub evm_accounts : Map EvmAccount
  pub evm_receipts : Map EvmReceipt
  pub tx_history : Map SignedTransaction

abbrev pub make_ledger : Ledger
make_ledger = record {
  accounts = [];
  nonces = [];
  validators = [];
  nfts = [];
  asset_balances = [];
  amm_pools = [];
  evm_accounts = [];
  evm_receipts = [];
  tx_history = [];
}

-- `l.Accounts[account]`
abbrev pub balance_of : Ledger → Text → ℤ
balance_of l account = at (pos 0) account l.accounts

-- The loop of CopyAccountsPretty.
copy_pretty : Map Text → Map ℤ → Map ℤ → Map ℤ
copy_pretty names [] out = out
copy_pretty names ((k, v) ∷ m) out = copy_pretty names m (insert (at k k names) v out)

unfoldable pub copy_accounts_pretty : Ledger → Map Text → Map ℤ
unfolding copy_pretty
copy_accounts_pretty l names = copy_pretty names l.accounts []

unfoldable pub is_validator : Ledger → Text → Bool
is_validator l account = at false account l.validators

unfoldable pub mark_validator : Ledger → Text → Ledger
mark_validator l account = record l { validators = insert account true l.validators }

-- A native account is named by the base64 text of its public key.
unfoldable pub is_native_validator_account : Text → Bool
is_native_validator_account account =
    if is_empty account then false else is_some (Base64.decode account)

unfoldable pub set_balance : Ledger → Text → ℤ → Ledger
set_balance l account amount = record l { accounts = insert account amount l.accounts }

unfoldable pub get_balance : Ledger → Text → ℤ
get_balance l account = balance_of l account

-- The loop of LotteryTickets: the sum of the positive balances, and how many are not positive.
unfoldable pub tally_stakes : Map ℤ → Map Bool → ℤ × ℤ → ℤ × ℤ
tally_stakes accounts [] sums = sums
tally_stakes accounts ((validator, b) ∷ rest) (total, zeros) =
    let balance = at (pos 0) validator accounts in
    tally_stakes accounts rest (
      if ltb_ℤ (pos 0) balance
      then (add_int total balance, zeros)
      else (total, add_int zeros (pos 1)))

abbrev pub lottery_scale : ℤ
lottery_scale = pos 1000000

-- `if tickets < 1 { return 1 }`
abbrev at_least_one : ℤ → ℤ
at_least_one tickets = if ltb_ℤ tickets (pos 1) then pos 1 else tickets

-- The second half of LotteryTickets, on the sums of the loop.
unfoldable pub tickets_of : ℤ → ℤ → ℤ → Run ℤ
tickets_of balance total zeros =
    if ltb_ℤ (pos 0) balance
    then (if leb_ℤ total (pos 0) then done lottery_scale else do
      tickets ← div_int (mul_int (mul_int balance (pos 97)) lottery_scale) (mul_int (pos 100) total)
      done (at_least_one tickets))
    else if leb_ℤ zeros (pos 0)
    then done (pos 0)
    else do
      tickets ← div_int (mul_int (pos 3) lottery_scale) (mul_int (pos 100) zeros)
      done (at_least_one tickets)

unfoldable pub lottery_tickets : Ledger → Text → Run ℤ
lottery_tickets l account =
    if not (is_native_validator_account account)
    then done (pos 0)
    else let balance = balance_of l account in
      let known = at false account l.validators || ltb_ℤ (pos 0) balance in
      let (total, zeros) = tally_stakes l.accounts l.validators (pos 0, pos 0) in
      tickets_of balance total
        (if not known && eqb_ℤ balance (pos 0) then add_int zeros (pos 1) else zeros)

unfoldable pub get_nonce : Ledger → Text → ℕ
get_nonce l account = at 0 account l.nonces

-- A nil inner map reads as an empty one.
abbrev pub balances_of : Ledger → Text → Map ℤ
balances_of l asset = at [] asset l.asset_balances

unfoldable pub asset_balance : Ledger → Text → Text → ℤ
asset_balance l name holder =
    let asset = normalize_asset name in
    let account = normalize_asset_account holder in
    if text_eq asset asset_pkn
    then balance_of l account
    else at (pos 0) account (balances_of l asset)

unfoldable pub get_asset_balance : Ledger → Text → Text → ℤ
unfolding asset_balance
get_asset_balance l asset account =
    asset_balance l (normalize_asset asset) (normalize_asset_account account)

unfoldable pub credit_asset : Ledger → Text → Text → ℤ → Ledger
credit_asset l name holder amount =
    let asset = normalize_asset name in
    let account = normalize_asset_account holder in
    if leb_ℤ amount (pos 0) || is_empty account
    then l
    else if text_eq asset asset_pkn
    then record l { accounts = insert account (add_int (balance_of l account) amount) l.accounts }
    else let balances = balances_of l asset in
      record l {
        asset_balances =
            insert asset (insert account (add_int (at (pos 0) account balances) amount) balances)
              l.asset_balances;
      }

unfoldable pub debit_asset : Ledger → Text → Text → ℤ → Bool × Ledger
debit_asset l name holder amount =
    let asset = normalize_asset name in
    let account = normalize_asset_account holder in
    if leb_ℤ amount (pos 0) || is_empty account
    then (false, l)
    else if text_eq asset asset_pkn
    then if ltb_ℤ (balance_of l account) amount then (false, l) else (
      true,
      record l { accounts = insert account (sub_int (balance_of l account) amount) l.accounts },
    )
    else let balances = balances_of l asset in
      if not (has asset l.asset_balances) || ltb_ℤ (at (pos 0) account balances) amount
      then (false, l)
      else (
        true,
        record l {
          asset_balances =
              insert asset (insert account (sub_int (at (pos 0) account balances) amount) balances)
                l.asset_balances;
        },
      )

unfoldable pub can_debit_asset : Ledger → Text → Text → ℤ → Bool
can_debit_asset l name holder amount =
    let asset = normalize_asset name in
    let account = normalize_asset_account holder in
    if leb_ℤ amount (pos 0) || is_empty account
    then false
    else if text_eq asset asset_pkn
    then leb_ℤ amount (balance_of l account)
    else has asset l.asset_balances && leb_ℤ amount (at (pos 0) account (balances_of l asset))

unfoldable pub is_operator : Ledger → Text → Bool
is_operator l account = is_native_validator_account account && at false account l.validators

-- The method AMMPool.
unfoldable pub amm_pool : Ledger → Text → Option AmmPool
amm_pool l name = lookup (normalize_pool_id name) l.amm_pools

unfoldable pub evm_receipt : Ledger → Text → Option EvmReceipt
evm_receipt l hash = lookup (to_lower hash) l.evm_receipts

-- The method NFT.
unfoldable pub nft_token : Ledger → Text → Text → Option NftToken
nft_token l collection token = lookup (nft_key collection token) l.nfts

-- The loop of NFTsByOwner, over the tokens as they are listed.
owned : Text → Map NftToken → List NftToken
owned owner [] = []
owned owner ((k, token) ∷ m) =
    let rest = owned owner m in
    if same_nft_account token.owner owner && not token.burned then token ∷ rest else rest

unfoldable pub nfts_by_owner : Ledger → Text → List NftToken
unfolding owned
nfts_by_owner l owner = owned owner l.nfts

unfoldable pub tx_count : Ledger → ℕ
tx_count l = length l.tx_history
