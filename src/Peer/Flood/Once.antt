-- ===== src/Peer/Flood/Once.antt =====
-- A flooded message is flooded once, and a message that was taken in is taken in once.
use pokoinpos.Prelude.{
  ℕ, ◌≡◌, refl, Bool, true, Option, none, some, List, [], ◌∷◌, arith, ◌∙◌, ap, sym, subst,
}
use pokoinpos.Prelude.Run.{
  done, After, After-if, After-if-known, After-map, After-option, After-return, After-panic,
  After-done,
}
use pokoinpos.Text.{Text, text_eq_refl}
use pokoinpos.GoMap.{Map, lookup, at, insert, lookup-insert}
use pokoinpos.Peer.{Message, MessageHistory, Peer, no_history, write_message}
use pokoinpos.Peer.Flood.{is_target, flood_to, flood_network, outbound}

-- Whether the history of a message says that it was sent.
abbrev pub is_sent_in : Text → Map MessageHistory → Bool
is_sent_in msg_id history = (at no_history msg_id history).is_sent

lookup-inserted :
    (k : Text) (h : MessageHistory) (m : Map MessageHistory) → lookup k (insert k h m) ≡ some h
lookup-inserted k h m = rw (lookup-insert k k h m, text_eq_refl k)

flood_to-history :
    (conns : Map (Option ℕ)) (received_from : List Text) (msg : Message) (p : Peer)
    → After (λ q. q.msg_history ≡ p.msg_history) (flood_to conns received_from msg p)
unfolding flood_to
flood_to-history [] rf msg p = After-return (λ (q : Peer). q.msg_history ≡ p.msg_history) refl
flood_to-history ((peer, conn) ∷ rest) rf msg p =
    let Q : Peer → Type 0 = λ q. q.msg_history ≡ p.msg_history in
    After-if Q (is_target p.id rf peer) _ _ (flood_to-history rest rf msg p) (
      After-option Q conn _ _ (After-panic Q)
        (λ c. flood_to-history rest rf msg (write_message peer msg p)))

flood_network-sent :
    (msg : Message) (p : Peer)
    → After (λ q. is_sent_in msg.msg_id q.msg_history ≡ true) (flood_network msg p)
unfolding flood_network
flood_network-sent msg p =
    let Q : Peer → Type 0 = λ q. is_sent_in msg.msg_id q.msg_history ≡ true in
    let hist = at no_history msg.msg_id p.msg_history in
    let marked : MessageHistory = record hist { is_sent = true } in
    let history = insert msg.msg_id marked p.msg_history in
    After-if-known Q hist.is_sent _ _
      (λ e.
        After-map (λ (q : Peer). q.msg_history ≡ history) Q _
          (flood_to-history p.conns hist.received_from (outbound p msg)
            (record p { msg_history = history }))
          (λ q h.
            ap (is_sent_in msg.msg_id) h
            ∙ ap (λ o. (elim o as (λ _. MessageHistory) [ none ↦ no_history | some v ↦ v ]).is_sent)
                (lookup-inserted msg.msg_id marked p.msg_history)))
      (λ e. After-return Q e)

-- Once FloodNetwork has returned, flooding any message with the same id sends nothing and changes
-- nothing.
pub flood_network_once :
    (msg again : Message) (p : Peer) {q : Peer}
    → again.msg_id ≡ msg.msg_id
    → flood_network msg p ≡ done q
    → flood_network again q ≡ done q
unfolding flood_network
flood_network_once msg again p {q = q} same e =
    let sent =
      After-done (λ (q : Peer). is_sent_in msg.msg_id q.msg_history ≡ true)
        (flood_network-sent msg p) e in
    let sent' = subst (λ i. is_sent_in i q.msg_history ≡ true) (sym same) sent in
    ground (arith, sent')
