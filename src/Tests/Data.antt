-- ===== src/Tests/Data.antt =====
-- The data of the examples. The hash of every text is the byte 5. Alice's key has the modulus 1000
-- and the exponent 1, so that 5 is a signature of every message.
use pokoinpos.Prelude.{ℕ, true, none, some, [], ◌∷◌, ◌++◌, zero, suc}
use pokoinpos.Prelude.Int.{pos}
use pokoinpos.Text.{Text, txt}
use pokoinpos.Tx.{SignedTransaction}
use pokoinpos.Ledger.{Ledger, make_ledger}
use pokoinpos.Genesis.{GenesisMetaData}
use pokoinpos.Platform.{Platform, EvmTransaction, EvmRun}

abbrev letters : ℕ → Text
letters zero = []
letters (suc n) = 65 ∷ letters n

-- The base64 text of 254 zeros, of the two bytes of 1000 and of the byte 1.
abbrev pub alice : Text
alice = letters 339 ++ txt "D6AE="

abbrev pub bob : Text
bob = txt "bob"

abbrev pub wallet : Text
wallet = txt "0xa1"

abbrev pub genesis_settings : GenesisMetaData
genesis_settings = record {
  hardness = pos 10000000;
  seed = pos 7;
  dynamic_hardness_fork_height = pos 0;
  dynamic_hardness_min = pos 0;
  dynamic_hardness_max = pos 0;
  dynamic_hardness_window = pos 0;
  fast_block_target_slots = pos 0;
  idle_block_target_slots = pos 0;
  initial_balances = (alice, pos 100) ∷ [];
}

-- The Ethereum transaction that the wallet sent: 3 PKN to bob, with nonce 0.
abbrev pub wallet_transfer : EvmTransaction
wallet_transfer = record {
  hash = txt "0xt1";
  to = some bob;
  payload = [];
  value = some (pos 3000000000000000000);
  nonce = 0;
  gas = 21000;
}

abbrev nothing_run : EvmRun
nothing_run = record { calls = []; failed = true; gas_used = 0; created = [] }

abbrev pub toy : Platform
toy = record {
  sha256 = λ s. 5 ∷ [];
  marshal_strings = λ fields. [];
  marshal_transactions = λ txs. [];
  unmarshal_transactions = λ s. some [];
  unmarshal_genesis = λ s. some genesis_settings;
  unmarshal_amm = λ s. none;
  decode_transaction = λ s. some wallet_transfer;
  sender = λ chain tx. some wallet;
  evm_create = λ accounts from tx gas. nothing_run;
  evm_call = λ accounts from to tx gas. nothing_run;
}

abbrev pub payment : SignedTransaction
payment = record {
  id = txt "t1";
  from = alice;
  to = bob;
  amount = pos 30;
  signature = txt "BQ==";
  kind = [];
  nonce = 0;
  raw = [];
  chain_id = pos 0;
  nft = none;
  amm = none;
}

abbrev pub funded : Ledger
funded = record make_ledger {
  accounts = (alice, pos 100) ∷ (wallet, pos 10) ∷ [];
  validators = (alice, true) ∷ [];
}

abbrev pub paid_ledger : Ledger
paid_ledger = record funded {
  accounts = (alice, pos 70) ∷ (wallet, pos 10) ∷ (bob, pos 30) ∷ [];
  tx_history = (txt "t1", payment) ∷ [];
}

abbrev pub wallet_payment : SignedTransaction
wallet_payment = record {
  id = txt "0xT1";
  from = wallet;
  to = bob;
  amount = pos 3;
  signature = txt "evm:f8";
  kind = txt "evm";
  nonce = 0;
  raw = txt "0xf8";
  chain_id = pos 26;
  nft = none;
  amm = none;
}

abbrev pub wallet_paid_ledger : Ledger
wallet_paid_ledger = record funded {
  accounts = (alice, pos 100) ∷ (wallet, pos 7) ∷ (bob, pos 3) ∷ [];
  nonces = (wallet, 1) ∷ [];
  tx_history = (txt "0xT1", wallet_payment) ∷ [];
}
