-- ===== src/Peer/Flood.antt =====
-- Sending and flooding of messages.
pub mod Once
pub mod Reach
use pokoinpos.Prelude.{
  ℕ, Bool, true, false, ◌&&◌, ◌||◌, not, Option, none, some, List, [], ◌∷◌, ◌++◌, map,
}
use pokoinpos.Prelude.Run.{Run, done, panic}
use pokoinpos.Text.{Text, text_eq}
use pokoinpos.GoMap.{Map, has, at, insert}
use pokoinpos.Peer.{
  Message, MessageHistory, Peer, new_message_history, no_history, write_message, first_seen,
}

-- `slices.Contains`
unfoldable pub contains : List Text → Text → Bool
contains [] x = false
contains (y ∷ ys) x = text_eq y x || contains ys x

-- `p.conns[id]`, where a missing id is nil too.
unfoldable pub connection : Peer → Text → Option ℕ
connection p id = at none id p.conns

unfoldable pub has_connection : Peer → Text → Bool
has_connection p id = has id p.conns

unfoldable pub connection_ids : Peer → List Text
connection_ids p = map (λ e. e.0) p.conns

-- `false` is the error for a receiver without a connection.
unfoldable pub send : Text → Message → Peer → Bool × Peer
send to msg p = elim (connection p to) [
  | none ↦ (false, p)
  | some conn ↦ (true, write_message to msg p)
]

unfoldable pub has_seen_message : Peer → Text → Bool
has_seen_message p msg_id = has msg_id p.msg_history

unfoldable pub add_received_flood_message : Message → Peer → Peer
add_received_flood_message msg p =
    let hist = at (new_message_history msg) msg.msg_id p.msg_history in
    record p {
      msg_history =
          insert msg.msg_id (record hist { received_from = hist.received_from ++ (msg.from ∷ []) })
            p.msg_history;
    }

-- Whether the loop of FloodNetwork sends to a peer.
abbrev pub is_target : Text → List Text → Text → Bool
is_target self received_from peer = not (text_eq peer self) && not (contains received_from peer)

-- The loop over the connections, as they are listed. A nil connection is a nil dereference.
unfoldable pub flood_to : Map (Option ℕ) → List Text → Message → Peer → Run Peer
flood_to [] received_from msg p = done p
flood_to ((peer, conn) ∷ rest) received_from msg p = elim (is_target p.id received_from peer) [
  | false ↦ flood_to rest received_from msg p
  | true ↦ elim conn [
    | none ↦ panic
    | some c ↦ flood_to rest received_from msg (write_message peer msg p)
  ]
]

-- The message that goes out names this peer as its sender.
abbrev pub outbound : Peer → Message → Message
outbound p msg = record msg { from = p.id }

unfoldable pub flood_network : Message → Peer → Run Peer
flood_network msg p =
    let hist = at no_history msg.msg_id p.msg_history in
    elim hist.is_sent [
      | true ↦ done p
      | false ↦ flood_to p.conns hist.received_from (outbound p msg) (record p {
        msg_history = insert msg.msg_id (record hist { is_sent = true }) p.msg_history;
      })
    ]

unfoldable pub flood_message : Message → Peer → Run Peer
flood_message msg p = flood_network msg p

-- The loop of sendCatchUp to a new connection.
unfoldable pub send_history : Map MessageHistory → Text → Peer → Peer
send_history [] to p = p
send_history ((msg_id, hist) ∷ rest) to p = elim hist.content [
  | none ↦ send_history rest to p
  | some msg ↦ send_history rest to (write_message to msg p)
]

unfoldable pub send_catch_up : Text → Peer → Peer
send_catch_up to p = send_history p.msg_history to p

-- The end of the handlers that take a message in: its history with its first sender.
unfoldable pub remember : Message → Peer → Peer
remember msg p = record p { msg_history = insert msg.msg_id (first_seen msg) p.msg_history }
