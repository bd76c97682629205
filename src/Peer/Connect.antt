-- ===== src/Peer/Connect.antt =====
-- How a peer takes its place in the network: its id and settings, and connections and joins.
use pokoinpos.Prelude.{ℕ, Bool, Option, none, some, List, [], ◌∷◌, ◌++◌, if◌then◌else◌, take}
use pokoinpos.Prelude.Int.{ℤ, pos, ltb_ℤ}
use pokoinpos.Prelude.Run.{Run, done, ◌>>=◌}
use pokoinpos.Text.{Text, txt, is_empty, trim_space, to_lower}
use pokoinpos.Text.Decimal.{itoa}
use pokoinpos.GoMap.{insert}
use pokoinpos.Crypto.{Account, safe_encode}
use pokoinpos.Genesis.{GenesisMetaData, apply_default_dynamic_hardness_config}
use pokoinpos.Chain.AddBlock.{new_blockchain_with_genesis}
use pokoinpos.Chain.State.{ledger_from_blockchain}
use pokoinpos.Peer.{Message, Peer, PeerAddress, ConnectPayload, Wire}
use pokoinpos.Peer.Flood.{
  has_connection, connection_ids, add_received_flood_message, flood_network, send_catch_up,
}
use pokoinpos.Peer.Sync.{chain_status, maybe_request_chain_sync}
use pokoinpos.Peer.Addresses.{
  join_host_port, rekey, record_peer_address, record_peer_addresses, record_peer_validator,
  unique_peer_addresses, find_peer_address, add_known, own_address, usable_addresses,
  validator_account, dial,
}

module _ (w : Wire) where
  unfoldable pub peer_id : Text → ℤ → Text
  peer_id given port =
      let host = to_lower (trim_space given) in
      if is_empty host
      then itoa port
      else txt "peer-"
        ++ w.raw_url_encode (take 16 (w.platform.sha256 (join_host_port host (itoa port))))

  unfoldable pub set_advertise_host : Text → Peer → Peer
  set_advertise_host given p =
      let host = trim_space given in
      if is_empty host
      then p
      else let q = rekey p.id (peer_id host p.listenport) p in
        record q {
          advertise_host = host;
          peer_addresses =
              insert q.id (record { id = q.id; host = host; port = q.listenport }) q.peer_addresses;
        }

  -- ConfigurePoS, for a genesis that is not nil. Marshalling writes the defaults into the settings that
  -- the peer keeps.
  unfoldable pub configure_pos : GenesisMetaData → Option Account → Peer → Run Peer
  configure_pos given miner p =
      let genesis = apply_default_dynamic_hardness_config given in
      let chain = new_blockchain_with_genesis w.platform (w.marshal_genesis genesis) in
      do
        l ← ledger_from_blockchain w.platform chain p.finality_depth
        done (record p {
          genesis = some genesis;
          miner = miner;
          peer_validators = elim miner [
            | none ↦ p.peer_validators
            | some a ↦ insert p.id (safe_encode a) p.peer_validators
          ];
          blockchain = some chain;
          ledger = l;
        })

  unfoldable pub set_finality_depth : ℤ → Peer → Run Peer
  set_finality_depth given p =
      let depth = if ltb_ℤ given (pos 0) then pos 0 else given in
      elim p.blockchain [
        | none ↦ done (record p { finality_depth = depth })
        | some chain ↦ do
          l ← ledger_from_blockchain w.platform chain depth
          done (record p { finality_depth = depth; ledger = l })
      ]

  unfoldable pub addresses_from_connect_payload : Peer → Text → List PeerAddress
  addresses_from_connect_payload p raw = elim (w.unmarshal_connect raw) [
    | none ↦ []
    | some payload ↦
        unique_peer_addresses (add_known p.peer_addresses payload.peers payload.addresses)
  ]

  unfoldable pub validator_from_connect_payload : Text → Text
  validator_from_connect_payload raw = elim (w.unmarshal_connect raw) [
    | none ↦ []
    | some payload ↦ trim_space payload.validator
  ]

  -- The record of this peer is refreshed where it advertises a host.
  unfoldable pub connect_payload : Peer → Run (ConnectPayload × Peer)
  connect_payload p =
      let self : PeerAddress = record { id = p.id; host = p.advertise_host; port = p.listenport } in
      let silent = is_empty p.advertise_host in
      let listed = usable_addresses p.peer_addresses in
      do
        status ← chain_status w p
        done (
          record {
            peers = connection_ids p;
            addresses = unique_peer_addresses (if silent then listed else listed ++ (self ∷ []));
            address = [];
            validator = validator_account p;
            genesis_hash = status.genesis_hash;
            height = status.height;
            best_hash = status.best_hash;
          },
          if silent then p else record p { peer_addresses = insert p.id self p.peer_addresses },
        )

  unfoldable pub flood_join : Peer → Run Peer
  flood_join p = do
    (payload, p') ← connect_payload p
    let msg : Message = record {
      msg_type = txt "Join";
      msg_id = txt "join-" ++ p'.id;
      from = p'.id;
      payload = w.marshal_connect payload;
    }
    flood_network msg (add_received_flood_message msg p')

  -- The end of handleJoin, for a peer without a connection. An id may be only a port.
  unfoldable pub dial_joined : Text → Option PeerAddress → Peer → Peer
  dial_joined id (some a) p = dial a p
  dial_joined id none p = elim (w.atoi id) [
    | none ↦ p
    | some port ↦ dial (record { id = []; host = txt "localhost"; port = port }) p
  ]

  unfoldable pub handle_join : Message → Peer → Peer
  handle_join msg p =
      let known = record_peer_addresses (addresses_from_connect_payload p msg.payload) p in
      let q = record_peer_validator msg.from (validator_from_connect_payload msg.payload) known in
      if has_connection q msg.from
      then q
      else dial_joined msg.from
          (find_peer_address (addresses_from_connect_payload q msg.payload) msg.from) q

  -- The address that a payload names as `host:port`.
  unfoldable pub stated_address : Text → Text → Option PeerAddress
  stated_address id text = if is_empty text then none else elim (w.split_host_port text) [
    | none ↦ none
    | some (host, port_text) ↦ elim (w.atoi port_text) [
      | none ↦ none
      | some port ↦ some (record { id = id; host = host; port = port })
    ]
  ]

  -- `remote` is the host and the port of a TCP socket.
  unfoldable pub socket_address : Text → Option (Text × ℤ) → PeerAddress
  socket_address id none = record { id = id; host = []; port = pos 0 }
  socket_address id (some (host, port)) = record { id = id; host = host; port = port }

  unfoldable pub address_from_connect_payload : Text → Text → Option (Text × ℤ) → PeerAddress
  address_from_connect_payload id raw remote = elim (w.unmarshal_connect raw) [
    | none ↦ socket_address id remote
    | some payload ↦ elim (own_address id payload.addresses) [
      | some a ↦ a
      | none ↦ elim (stated_address id payload.address) [
        | some a ↦ a
        | none ↦ socket_address id remote
      ]
    ]
  ]

  -- prepareConnection, once the other end has named itself.
  unfoldable pub register_connection :
      ℤ → ℕ → Option (Text × ℤ) → Bool → Message → Peer → Run (List PeerAddress × Peer)
  register_connection now conn remote from_accept msg p =
      let connected : Peer = record p { conns = insert msg.from (some conn) p.conns } in
      let address = address_from_connect_payload msg.from msg.payload remote in
      let q =
        record_peer_validator msg.from (validator_from_connect_payload msg.payload)
          (record_peer_address address connected) in
      do
        asked ← maybe_request_chain_sync w now msg.from msg.payload q
        let caught_up = if from_accept then send_catch_up msg.from asked else asked
        done (addresses_from_connect_payload caught_up msg.payload, caught_up)
