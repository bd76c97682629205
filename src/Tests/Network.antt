-- ===== src/Tests/Network.antt =====
-- The data of the examples on a peer. A text is hashed by a byte 1 before it, and a block is signed by
-- its slot. The key of the miner has the modulus 2^2040 and the exponent 1, so that a hash is its own
-- signature.
use pokoinpos.Prelude.{ℕ, zero, suc, ◌^◌, none, some, [], ◌∷◌, ◌++◌}
use pokoinpos.Prelude.Int.{pos}
use pokoinpos.Prelude.Run.{Run, done, panic}
use pokoinpos.Text.{Text, txt}
use pokoinpos.Crypto.{Account}
use pokoinpos.Genesis.{GenesisMetaData}
use pokoinpos.Platform.{Platform}
use pokoinpos.Chain.Block.{Block}
use pokoinpos.Config.{Env}
use pokoinpos.Peer.{Message, Peer, Wire, ChainSyncResponse, new_peer}
use pokoinpos.Tests.Data.{genesis_settings, wallet, wallet_payment, funded}
use pokoinpos.Tests.Tree.{by_slot, first_block, child}

abbrev letters : ℕ → Text
letters zero = []
letters (suc n) = 65 ∷ letters n

abbrev pub miner : Account
miner = record { n = 2 ^ 2040; e = 1; d = 1 }

abbrev pub miner_name : Text
miner_name = txt "AQ" ++ letters 340 ++ txt "E="

abbrev pub settings : GenesisMetaData
settings = record genesis_settings {
  initial_balances = (miner_name, pos 100) ∷ (wallet, pos 10) ∷ [];
}

abbrev pub net : Platform
net = record by_slot { unmarshal_genesis = λ s. some settings }

abbrev pub next_block : Block
next_block = record child { verification_key = miner_name; draw = pos 269736911169; meta_data = [] }

abbrev response : ChainSyncResponse
response = record { genesis_hash = txt "AWUzMD0="; height = pos 1; blocks = next_block ∷ [] }

abbrev pub wire : Wire
wire = record {
  platform = net;
  marshal_transaction = λ t. t.id;
  unmarshal_transaction = λ s. some wallet_payment;
  marshal_block_json = λ b. [];
  unmarshal_block = λ s. some next_block;
  marshal_connect = λ c. [];
  unmarshal_connect = λ s. none;
  marshal_request = λ r. [];
  unmarshal_request = λ s. none;
  marshal_response = λ r. [];
  unmarshal_response = λ s. some response;
  marshal_genesis = λ g. txt "{}";
  raw_url_encode = λ s. s;
  atoi = λ s. none;
  split_host_port = λ s. none;
}

-- A node with an entry for itself and two connections, on a chain with a genesis block only.
abbrev pub node : Peer
node = record (new_peer (pos 7)) {
  id = txt "n";
  conns = (txt "n", none) ∷ (txt "a", some 1) ∷ (txt "b", some 2) ∷ [];
  ledger = funded;
  blockchain = some (first_block ∷ []);
  genesis = some settings;
  miner = some miner;
  mempool = (txt "old", record wallet_payment { id = txt "old" }) ∷ [];
}

abbrev pub message : Message
message = record { msg_type = txt "Block"; msg_id = txt "m"; from = txt "a"; payload = [] }

-- The peer that a run with a flag returns, and what a run returns.
abbrev pub peer_of {ℓ} : {A : Type ℓ} → Run (A × Peer) → Peer
peer_of (done r) = r.1
peer_of panic = node

abbrev pub returned : Run Peer → Peer
returned (done p) = p
returned panic = node

-- An environment without variables.
abbrev pub bare : Env
bare = record {
  getenv = λ key. [];
  atoi = λ s. none;
  parse_int = λ s. none;
  fetch_defaults = λ url. none;
}
