-- ===== src/Peer.antt =====
-- peer/peer.go and peer/message.go: a node of the network. Its state is one record; a method is a
-- step on it. Sockets and goroutines are not modelled: what a method writes to a connection is
-- appended to `outbox`, what it hands to the channel `received` to `delivered`, and the addresses that
-- it dials to `dialled`; the connection that a dial opens is a later step. A method reads the clock as
-- an argument.
pub mod Flood
pub mod Frame
pub mod Committed
pub mod Mempool
pub mod Receive
pub mod Sync
pub mod Mine
pub mod Addresses
pub mod Connect
pub mod Make
pub mod Queries
pub mod Best
pub mod Handle
use pokoinpos.Prelude.{
  ℕ, ◌+◌, ◌%◌, ◌^◌, Bool, true, false, Option, none, some, List, [], ◌∷◌, ◌++◌, if◌then◌else◌,
}
use pokoinpos.Prelude.Int.{ℤ, pos}
use pokoinpos.Text.{Text}
use pokoinpos.Text.Decimal.{itoa}
use pokoinpos.GoMap.{Map}
use pokoinpos.Tx.{SignedTransaction}
use pokoinpos.Ledger.{Ledger, make_ledger}
use pokoinpos.Crypto.{Account}
use pokoinpos.Genesis.{GenesisMetaData}
use pokoinpos.Platform.{Platform}
use pokoinpos.Chain.Block.{Block}

pub record Message : Type 0 where
  pub msg_type : Text
  pub msg_id : Text
  pub from : Text
  pub payload : Text

-- `content` is a pointer that may be nil.
pub record MessageHistory : Type 0 where
  pub content : Option Message
  pub received_from : List Text
  pub is_sent : Bool

pub record PeerAddress : Type 0 where
  pub id : Text
  pub host : Text
  pub port : ℤ

pub record ConnectPayload : Type 0 where
  pub peers : List Text
  pub addresses : List PeerAddress
  pub address : Text
  pub validator : Text
  pub genesis_hash : Text
  pub height : ℤ
  pub best_hash : Text

pub record ChainSyncRequest : Type 0 where
  pub genesis_hash : Text
  pub from_height : ℤ

pub record ChainSyncResponse : Type 0 where
  pub genesis_hash : Text
  pub height : ℤ
  pub blocks : List Block

pub record ChainStatusSummary : Type 0 where
  pub genesis_hash : Text
  pub height : ℤ
  pub best_hash : Text

-- The JSON forms that peers exchange, base64.RawURLEncoding, strconv.Atoi and net.SplitHostPort; the
-- rest of what the code calls is in `platform`.
pub record Wire : Type 0 where
  pub platform : Platform
  pub marshal_transaction : SignedTransaction → Text
  pub unmarshal_transaction : Text → Option SignedTransaction
  pub marshal_block_json : Block → Text
  pub unmarshal_block : Text → Option Block
  pub marshal_connect : ConnectPayload → Text
  pub unmarshal_connect : Text → Option ConnectPayload
  pub marshal_request : ChainSyncRequest → Text
  pub unmarshal_request : Text → Option ChainSyncRequest
  pub marshal_response : ChainSyncResponse → Text
  pub unmarshal_response : Text → Option ChainSyncResponse
  pub marshal_genesis : GenesisMetaData → Text
  pub raw_url_encode : Text → Text
  pub atoi : Text → Option ℤ
  pub split_host_port : Text → Option (Text × Text)

-- A connection is known by a number; the node itself is listed with none. `blockchain`, `genesis` and
-- `miner` are pointers that may be nil.
pub record Peer : Type 0 where
  pub listenport : ℤ
  pub id : Text
  pub conns : Map (Option ℕ)
  pub peer_validators : Map Text
  pub peer_addresses : Map PeerAddress
  pub advertise_host : Text
  pub msg_history : Map MessageHistory
  pub ledger : Ledger
  pub blockchain : Option (List Block)
  pub genesis : Option GenesisMetaData
  pub miner : Option Account
  pub mempool : Map SignedTransaction
  pub finality_depth : ℤ
  pub accepted_blocks : ℕ
  pub mined_blocks : ℕ
  pub accepted_txs : ℕ
  pub lottery_attempts : ℕ
  pub lottery_wins : ℕ
  pub lottery_misses : ℕ
  pub lottery_no_ticket : ℕ
  pub outbox : List (Text × Message)
  pub delivered : List Message
  pub dialled : List PeerAddress

unfoldable pub new_peer : ℤ → Peer
new_peer listenport = record {
  listenport = listenport;
  id = itoa listenport;
  conns = [];
  peer_validators = [];
  peer_addresses = [];
  advertise_host = [];
  msg_history = [];
  ledger = make_ledger;
  blockchain = none;
  genesis = none;
  miner = none;
  mempool = [];
  finality_depth = pos 0;
  accepted_blocks = 0;
  mined_blocks = 0;
  accepted_txs = 0;
  lottery_attempts = 0;
  lottery_wins = 0;
  lottery_misses = 0;
  lottery_no_ticket = 0;
  outbox = [];
  delivered = [];
  dialled = [];
}

-- NewMessageHistory.
abbrev pub new_message_history : Message → MessageHistory
new_message_history msg = record { content = some msg; received_from = []; is_sent = false }

-- The zero value, which a map gives for a missing key.
abbrev pub no_history : MessageHistory
no_history = record { content = none; received_from = []; is_sent = false }

-- `counter.Add(1)` on a uint64.
abbrev pub count_up : ℕ → ℕ
count_up n = (n + 1) % 2 ^ 64

-- writeMessage.
abbrev pub write_message : Text → Message → Peer → Peer
write_message to msg p = record p { outbox = p.outbox ++ ((to, msg) ∷ []) }

-- `hist.receivedFrom = append(hist.receivedFrom, msg.From)` and the write back into the map are
-- shared by the handlers: a fresh history with its first sender.
abbrev pub first_seen : Message → MessageHistory
first_seen msg = record { content = some msg; received_from = msg.from ∷ []; is_sent = false }
