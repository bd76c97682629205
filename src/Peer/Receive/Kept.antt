-- ===== src/Peer/Receive/Kept.antt =====
-- What OnMessage does with a message that a handler has accepted: the message history of the peer only
-- grows.
use pokoinpos.Prelude.{ℕ, true, Option, List, [], ◌∷◌, ◌≡◌, refl, if-holds, arith}
use pokoinpos.Prelude.Run.{
  After, After->>=, After-if, After-option, After-return, After-panic, After-map,
}
use pokoinpos.Text.{Text}
use pokoinpos.GoMap.{Map, has, insert, lookup-insert}
use pokoinpos.Peer.{Message, MessageHistory, Peer}
use pokoinpos.Peer.Flood.{flood_to, flood_network, has_seen_message, add_received_flood_message}
use pokoinpos.Peer.Handle.{forward, is_delivered}
use pokoinpos.Peer.Receive.{deliver}

-- Every message that one peer has seen, the other has seen.
abbrev pub IsKept : Peer → Peer → Type 0
IsKept p q = (id : Text) → has_seen_message p id ≡ true → has_seen_message q id ≡ true

insert-has :
    (k id : Text) (h : MessageHistory) (m : Map MessageHistory)
    → has id m ≡ true
    → has id (insert k h m) ≡ true
insert-has k id h m seen = ground (arith, seen, lookup-insert k id h m)

flood_to-history :
    (conns : Map (Option ℕ)) (received_from : List Text) (msg : Message) (p : Peer)
    → After (λ q. q.msg_history ≡ p.msg_history) (flood_to conns received_from msg p)
unfolding flood_to
flood_to-history [] rf msg p = After-return (λ q. q.msg_history ≡ p.msg_history) refl
flood_to-history ((peer, conn) ∷ rest) rf msg p =
    let Q : Peer → Type 0 = λ q. q.msg_history ≡ p.msg_history in
    After-if Q _ _ _ (flood_to-history rest rf msg p)
      (After-option Q conn _ _ (After-panic Q) (λ c. flood_to-history rest rf msg _))

flood_network-IsKept : (msg : Message) (p : Peer) → After (IsKept p) (flood_network msg p)
unfolding flood_network has_seen_message
flood_network-IsKept msg p =
    After-if (IsKept p) _ _ _
      (After-map _ (IsKept p) _ (flood_to-history _ _ _ _)
        (λ q e id seen. rw e (insert-has msg.msg_id id _ p.msg_history seen)))
      (After-return (IsKept p) (λ id seen. seen))

pub forward-IsKept : (msg : Message) (p : Peer) → After (IsKept p) (forward msg p)
unfolding forward add_received_flood_message has_seen_message
forward-IsKept msg p =
    let noted = add_received_flood_message msg p in
    After->>= (IsKept noted) (IsKept p) (flood_network msg noted) _ (flood_network-IsKept msg noted)
      (λ q h.
        let kept : IsKept p q = λ id seen. h id (insert-has msg.msg_id id _ p.msg_history seen) in
        After-return (IsKept p)
          (if-holds (IsKept p) (is_delivered msg.msg_type) (deliver msg q) q kept kept))
