-- ===== src/Platform.antt =====
-- What the program calls and does not implement: the hash, the JSON codec and go-ethereum
-- (transaction decoding, sender recovery, the virtual machine). They are the parameters of every
-- definition that uses them. The laws that a theorem needs are hypotheses of that theorem.
use pokoinpos.Prelude.{ℕ, Bool, Option, List}
use pokoinpos.Prelude.Int.{ℤ}
use pokoinpos.Text.{Text}
use pokoinpos.GoMap.{Map}
use pokoinpos.Tx.{SignedTransaction, AmmPayload}
use pokoinpos.Ledger.{EvmAccount}
use pokoinpos.Genesis.{GenesisMetaData}
use pokoinpos.Evm.{Call}

-- What the code reads of a decoded Ethereum transaction: Hash().Hex(), To().Hex(), Data(), Value(),
-- Nonce() and Gas(). `to` is nil in a contract creation, and `value` may be nil.
pub record EvmTransaction : Type 0 where
  pub hash : Text
  pub to : Option Text
  pub payload : Text
  pub value : Option ℤ
  pub nonce : ℕ
  pub gas : ℕ

-- A run of the virtual machine: the calls that it makes on the adapter, whether it failed, the gas
-- that it used, and for a creation the address of the contract.
pub record EvmRun : Type 0 where
  pub calls : List Call
  pub failed : Bool
  pub gas_used : ℕ
  pub created : Text

pub record Platform : Type 0 where
  -- sha256.Sum256
  pub sha256 : Text → Text
  -- json.Marshal of a []string, of transactions and of a payload; json.Unmarshal.
  pub marshal_strings : List Text → Text
  pub marshal_transactions : List SignedTransaction → Text
  pub unmarshal_transactions : Text → Option (List SignedTransaction)
  pub unmarshal_genesis : Text → Option GenesisMetaData
  pub unmarshal_amm : Text → Option AmmPayload
  -- common.FromHex and Transaction.UnmarshalBinary; types.Sender for a chain.
  pub decode_transaction : Text → Option EvmTransaction
  pub sender : ℤ → EvmTransaction → Option Text
  -- vm.EVM.Create, Call and StaticCall on the accounts, from an origin.
  pub evm_create : Map EvmAccount → Text → EvmTransaction → ℕ → EvmRun
  pub evm_call : Map EvmAccount → Text → Text → EvmTransaction → ℕ → EvmRun
