-- ===== src/Evm.antt =====
-- peer/account/evm_state.go: the adapter through which go-ethereum's virtual machine reads and writes
-- the accounts of a ledger. An address is its text `addr.Hex()`, a hash its text `h.Hex()`. The gas
-- rules of the machine are not the adapter's; what the machine does is a list of calls (`Call`).
use pokoinpos.Prelude.{
  ℕ, zero, suc, ◌+◌, ◌-◌, ◌%◌, ◌^◌, Bool, true, false, ◌&&◌, not, Option, none, some, List, [], ◌∷◌,
  ◌++◌, map, ltb, ◌==◌, if◌then◌else◌, length, take,
}
use pokoinpos.Prelude.Int.{ℤ, pos, negsuc}
use pokoinpos.Text.{Text, txt, is_empty, to_lower, trim_prefix}
use pokoinpos.Text.Hex.{hex_encode, hex_decode, big_int_text, big_int_value}
use pokoinpos.GoMap.{Map, has, at, insert}
use pokoinpos.Ledger.{EvmAccount, EvmLog}

-- What the machine hands over with an event.
pub record LogEvent : Type 0 where
  pub address : Text
  pub topics : List Text
  pub payload : Text

-- `accounts` is the ledger's map EVMAccounts.
pub record EvmStateAdapter : Type 0 where
  pub accounts : Map EvmAccount
  pub snapshots : List (Map EvmAccount)
  pub refund : ℕ
  pub logs : List (Option LogEvent)

abbrev pub new_evm_state_adapter : Map EvmAccount → EvmStateAdapter
new_evm_state_adapter accounts = record {
  accounts = accounts;
  snapshots = [];
  refund = 0;
  logs = [];
}

abbrev pub no_account : EvmAccount
no_account = record { nonce = 0; balance = []; code = []; storage = [] }

abbrev pub evm_address_key : Text → Text
evm_address_key addr = to_lower addr

abbrev pub account : EvmStateAdapter → Text → EvmAccount
account s addr = at no_account (evm_address_key addr) s.accounts

abbrev pub put_account : EvmStateAdapter → Text → EvmAccount → EvmStateAdapter
put_account s addr a = record s { accounts = insert (evm_address_key addr) a s.accounts }

abbrev pub exist : EvmStateAdapter → Text → Bool
exist s addr = has (evm_address_key addr) s.accounts

unfoldable pub create_account : EvmStateAdapter → Text → EvmStateAdapter
create_account s addr = if exist s addr then s else put_account s addr no_account

-- evmBalanceFromString; what does not fit 256 bits counts as zero.
unfoldable pub evm_balance_from_string : Text → ℕ
evm_balance_from_string value = elim (big_int_value value) [
  | none ↦ 0
  | some n ↦ if ltb n (2 ^ 256) then n else 0
]

unfoldable pub get_balance : EvmStateAdapter → Text → ℕ
get_balance s addr = evm_balance_from_string (account s addr).balance

unfoldable pub sub_balance : EvmStateAdapter → Text → ℕ → EvmStateAdapter
sub_balance s addr amount =
    let a = account s addr in
    let balance = evm_balance_from_string a.balance in
    put_account s addr
      (record a { balance = big_int_text (if ltb balance amount then 0 else balance - amount) })

unfoldable pub add_balance : EvmStateAdapter → Text → ℕ → EvmStateAdapter
add_balance s addr amount =
    let a = account s addr in
    put_account s addr
      (record a { balance = big_int_text ((evm_balance_from_string a.balance + amount) % 2 ^ 256) })

unfoldable pub get_nonce : EvmStateAdapter → Text → ℕ
get_nonce s addr = (account s addr).nonce

unfoldable pub set_nonce : EvmStateAdapter → Text → ℕ → EvmStateAdapter
set_nonce s addr nonce = put_account s addr (record (account s addr) { nonce = nonce })

-- evmCodeLocked, on the accounts of a ledger.
unfoldable pub evm_code : Map EvmAccount → Text → Text
evm_code accounts address =
    let code_hex = trim_prefix (at no_account (to_lower address) accounts).code (txt "0x") in
    if is_empty code_hex then [] else elim (hex_decode code_hex) [ none ↦ [] | some code ↦ code ]

unfoldable pub get_code : EvmStateAdapter → Text → Text
unfolding evm_code
get_code s addr = evm_code s.accounts addr

unfoldable pub set_code : EvmStateAdapter → Text → Text → EvmStateAdapter
set_code s addr code =
    put_account s addr (record (account s addr) { code = txt "0x" ++ hex_encode code })

unfoldable pub get_code_size : EvmStateAdapter → Text → ℕ
unfolding get_code
get_code_size s addr = length (get_code s addr)

unfoldable pub add_refund : EvmStateAdapter → ℕ → EvmStateAdapter
add_refund s gas = record s { refund = (s.refund + gas) % 2 ^ 64 }

unfoldable pub sub_refund : EvmStateAdapter → ℕ → EvmStateAdapter
sub_refund s gas = record s { refund = if ltb s.refund gas then 0 else s.refund - gas }

-- GetState, before HexToHash reads the text.
unfoldable pub get_state : EvmStateAdapter → Text → Text → Text
get_state s addr key = at [] (to_lower key) (account s addr).storage

unfoldable pub set_state : EvmStateAdapter → Text → Text → Text → EvmStateAdapter
set_state s addr key value =
    let a = account s addr in
    put_account s addr (record a { storage = insert (to_lower key) (to_lower value) a.storage })

unfoldable pub self_destruct : EvmStateAdapter → Text → EvmStateAdapter
self_destruct s addr = put_account s addr (record (account s addr) { code = []; storage = [] })

unfoldable pub is_new_contract : EvmStateAdapter → Text → Bool
unfolding get_code
is_new_contract s addr = exist s addr && not (is_empty (get_code s addr))

-- `len(account.Storage) == 0`
abbrev no_entries : Map Text → Bool
no_entries [] = true
no_entries (e ∷ m) = false

-- The method Empty.
unfoldable pub empty_account : EvmStateAdapter → Text → Bool
empty_account s addr =
    let a = account s addr in
    (a.nonce == 0) && is_empty a.balance && is_empty a.code && no_entries a.storage

unfoldable pub nth : ℕ → List (Map EvmAccount) → Option (Map EvmAccount)
nth n [] = none
nth zero (m ∷ ms) = some m
nth (suc n) (m ∷ ms) = nth n ms

-- RevertToSnapshot. An identifier that is out of range changes nothing.
unfoldable pub revert_to_snapshot : EvmStateAdapter → ℤ → EvmStateAdapter
unfolding nth
revert_to_snapshot s (negsuc n) = s
revert_to_snapshot s (pos n) = elim (nth n s.snapshots) [
  | none ↦ s
  | some saved ↦ record s { accounts = saved; snapshots = take n s.snapshots }
]

-- Snapshot, with the identifier that it returns.
unfoldable pub snapshot : EvmStateAdapter → ℤ × EvmStateAdapter
snapshot s = (pos (length s.snapshots), record s { snapshots = s.snapshots ++ s.accounts ∷ [] })

unfoldable pub add_log : EvmStateAdapter → Option LogEvent → EvmStateAdapter
add_log s log = record s { logs = s.logs ++ log ∷ [] }

-- The calls by which the machine changes the adapter.
pub data Call : Type 0 where
  create : Text → Call
  sub_from : Text → ℕ → Call
  add_to : Text → ℕ → Call
  nonce : Text → ℕ → Call
  code : Text → Text → Call
  store : Text → Text → Text → Call
  destruct : Text → Call
  refund refund_less : ℕ → Call
  log : Option LogEvent → Call
  save : Call
  revert : ℤ → Call

unfoldable pub step : Call → EvmStateAdapter → EvmStateAdapter
step (create addr) s = create_account s addr
step (sub_from addr amount) s = sub_balance s addr amount
step (add_to addr amount) s = add_balance s addr amount
step (nonce addr n) s = set_nonce s addr n
step (code addr c) s = set_code s addr c
step (store addr key value) s = set_state s addr key value
step (destruct addr) s = self_destruct s addr
step (refund gas) s = add_refund s gas
step (refund_less gas) s = sub_refund s gas
step (log event) s = add_log s event
step save s = (snapshot s).1
step (revert id) s = revert_to_snapshot s id

unfoldable pub run_calls : List Call → EvmStateAdapter → EvmStateAdapter
run_calls [] s = s
run_calls (c ∷ cs) s = run_calls cs (step c s)

-- evmLogsFromTypes
unfoldable pub evm_logs_from_types : List (Option LogEvent) → List EvmLog
evm_logs_from_types [] = []
evm_logs_from_types (none ∷ logs) = evm_logs_from_types logs
evm_logs_from_types (some event ∷ logs) =
    record {
      address = to_lower event.address;
      topics = map to_lower event.topics;
      payload = txt "0x" ++ hex_encode event.payload;
    }
    ∷ evm_logs_from_types logs
