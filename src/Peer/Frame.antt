-- ===== src/Peer/Frame.antt =====
-- The operations of a peer that only send, and note what was received.
use pokoinpos.Prelude.{
  ℕ, Bool, true, false, ◌||◌, not, Option, none, some, List, [], ◌∷◌, ◌≡◌, refl, ◌∙◌, if◌then◌else◌,
  arith,
}
use pokoinpos.Prelude.Int.{ℤ, pos, leb_ℤ}
use pokoinpos.Prelude.Run.{After, After-any, After-return, After-panic, After-if, After-option}
use pokoinpos.Text.{text_eq, Text, txt, is_empty, trim_space}
use pokoinpos.GoMap.{Map}
use pokoinpos.Chain.Block.{Block}
use pokoinpos.Chain.Tree.{canonical_blocks}
use pokoinpos.Peer.{
  Message, MessageHistory, Peer, PeerAddress, ChainSyncRequest, Wire, write_message,
}
use pokoinpos.Peer.Flood.{has_connection, send, flood_to, flood_network, send_history}
use pokoinpos.Peer.Receive.{ask_for_parent, has_block_hash}
use pokoinpos.Peer.Sync.{chain_status, request_chain_sync, handle_chain_sync_request}
use pokoinpos.Peer.Addresses.{
  is_usable, record_peer_address, record_peer_addresses, record_peer_validator, dial,
  find_peer_address,
}
use pokoinpos.Peer.Connect.{
  addresses_from_connect_payload, validator_from_connect_payload, dial_joined, handle_join,
}

-- What a peer holds of the chain and of the transactions is the same.
abbrev pub Untouched : Peer → Peer → Type 0
Untouched p q =
    (q.blockchain ≡ p.blockchain)
    × (q.finality_depth ≡ p.finality_depth)
    × (q.ledger ≡ p.ledger)
    × (q.mempool ≡ p.mempool)

pub unchanged : (p : Peer) → Untouched p p
unchanged p = (refl, refl, refl, refl)

pub then_unchanged : (p q r : Peer) → Untouched p q → Untouched q r → Untouched p r
then_unchanged p q r (a, b, c, d) (a', b', c', d') = (a' ∙ a, b' ∙ b, c' ∙ c, d' ∙ d)

pub if-Untouched :
    (p q r : Peer) (b : Bool) → Untouched p q → Untouched p r → Untouched p (if b then q else r)
if-Untouched p q r true u v = u
if-Untouched p q r false u v = v

pub send-Untouched : (to : Text) (msg : Message) (p : Peer) → Untouched p (send to msg p).1
unfolding send
send-Untouched to msg p = ground arith

pub flood_to-Untouched :
    (conns : Map (Option ℕ)) (received_from : List Text) (msg : Message) (p : Peer)
    → After (Untouched p) (flood_to conns received_from msg p)
unfolding flood_to
flood_to-Untouched [] rf msg p = After-return (Untouched p) (unchanged p)
flood_to-Untouched ((peer, conn) ∷ rest) rf msg p =
    After-if (Untouched p) _ _ _ (flood_to-Untouched rest rf msg p) (
      After-option (Untouched p) conn _ _ (After-panic (Untouched p))
        (λ c. flood_to-Untouched rest rf msg _))

pub flood_network-Untouched : (msg : Message) (p : Peer) → After (Untouched p) (flood_network msg p)
unfolding flood_network
flood_network-Untouched msg p =
    After-if (Untouched p) _ _ _ (flood_to-Untouched _ _ _ _)
      (After-return (Untouched p) (unchanged p))

pub send_history-Untouched :
    (history : Map MessageHistory) (to : Text) (p : Peer) → Untouched p (send_history history to p)
unfolding send_history
send_history-Untouched [] to p = unchanged p
send_history-Untouched ((id, hist) ∷ rest) to p =
    elim hist.content
      as (λ o. Untouched p (elim o as (λ _. Peer) [
        | none ↦ send_history rest to p
        | some msg ↦ send_history rest to (write_message to msg p)
      ])) [
        | none ↦ send_history-Untouched rest to p
        | some msg ↦ send_history-Untouched rest to (write_message to msg p)
      ]

pub record_peer_address-Untouched :
    (a : PeerAddress) (p : Peer) → Untouched p (record_peer_address a p)
unfolding record_peer_address
record_peer_address-Untouched a p =
    if-Untouched p _ _ (is_usable a) (refl, refl, refl, refl) (unchanged p)

pub record_peer_addresses-Untouched :
    (addresses : List PeerAddress) (p : Peer) → Untouched p (record_peer_addresses addresses p)
unfolding record_peer_addresses
record_peer_addresses-Untouched [] p = unchanged p
record_peer_addresses-Untouched (a ∷ rest) p =
    then_unchanged p (record_peer_address a p)
      (record_peer_addresses rest (record_peer_address a p)) (record_peer_address-Untouched a p)
      (record_peer_addresses-Untouched rest _)

pub record_peer_validator-Untouched :
    (id validator : Text) (p : Peer) → Untouched p (record_peer_validator id validator p)
unfolding record_peer_validator
record_peer_validator-Untouched id validator p =
    if-Untouched p _ _ (is_empty id || is_empty (trim_space validator)) (unchanged p)
      (refl, refl, refl, refl)

pub dial-Untouched : (a : PeerAddress) (p : Peer) → Untouched p (dial a p)
unfolding dial
dial-Untouched a p =
    if-Untouched p _ _ (is_empty a.host || leb_ℤ a.port (pos 0)) (unchanged p)
      (refl, refl, refl, refl)

module _ (w : Wire) where
  pub dial_joined-Untouched :
      (id : Text) (found : Option PeerAddress) (p : Peer) → Untouched p (dial_joined w id found p)
  unfolding dial_joined
  dial_joined-Untouched id (some a) p = dial-Untouched a p
  dial_joined-Untouched id none p =
      elim (w.atoi id)
        as (λ o. Untouched p (elim o as (λ _. Peer) [
          | none ↦ p
          | some port ↦ dial (record { id = []; host = txt "localhost"; port = port }) p
        ])) [ none ↦ unchanged p | some port ↦ dial-Untouched _ p ]

  pub request_chain_sync-Untouched :
      (now : ℤ) (to : Text) (req : ChainSyncRequest) (p : Peer)
      → Untouched p (request_chain_sync w now to req p)
  unfolding request_chain_sync
  request_chain_sync-Untouched now to req p = send-Untouched to _ p

  pub handle_chain_sync_request-Untouched :
      (now : ℤ) (from : Text) (msg : Message) (p : Peer)
      → After (Untouched p) (handle_chain_sync_request w now from msg p)
  unfolding handle_chain_sync_request
  handle_chain_sync_request-Untouched now from msg p =
      After-option (Untouched p) p.blockchain _ _ (After-return (Untouched p) (unchanged p))
        (λ chain.
          After-option (Untouched p) (w.unmarshal_request msg.payload) _ _
            (After-return (Untouched p) (unchanged p))
            (λ req. After-any (Untouched p) (chain_status w p) _ (λ local.
              After-any (Untouched p) (canonical_blocks w.platform chain (pos 0)) _ (λ blocks.
                After-return (Untouched p) (
                  if-Untouched p p _
                    (is_empty req.genesis_hash || not (text_eq req.genesis_hash local.genesis_hash))
                    (unchanged p) (send-Untouched from _ p))))))

  pub handle_join-Untouched : (msg : Message) (p : Peer) → Untouched p (handle_join w msg p)
  unfolding handle_join
  handle_join-Untouched msg p =
      let known = record_peer_addresses (addresses_from_connect_payload w p msg.payload) p in
      let q = record_peer_validator msg.from (validator_from_connect_payload w msg.payload) known in
      let kept =
        then_unchanged p known q (record_peer_addresses-Untouched _ p)
          (record_peer_validator-Untouched msg.from _ known) in
      let found = find_peer_address (addresses_from_connect_payload w q msg.payload) msg.from in
      if-Untouched p q (dial_joined w msg.from found q) (has_connection q msg.from) kept (
        then_unchanged p q (dial_joined w msg.from found q) kept
          (dial_joined-Untouched msg.from found q))

  pub ask_for_parent-Untouched :
      (now : ℤ) (msg : Message) (b : Block) (p : Peer)
      → After (Untouched p) (ask_for_parent w now msg b p)
  unfolding ask_for_parent
  ask_for_parent-Untouched now msg b p =
      After-if (Untouched p) (has_block_hash w p b.parent_hash) _ _
        (After-any (Untouched p) (chain_status w p) _ (λ local. After-return (Untouched p) (
          if-Untouched p p _ (is_empty local.genesis_hash) (unchanged p)
            (request_chain_sync-Untouched now msg.from _ p))))
        (After-return (Untouched p) (unchanged p))
