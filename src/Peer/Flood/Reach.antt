-- ===== src/Peer/Flood/Reach.antt =====
-- Whom FloodNetwork sends a message to.
use pokoinpos.Prelude.{
  ℕ, ◌≡◌, refl, sym, ◌∙◌, true, false, Option, some, List, [], ◌∷◌, ◌++◌, map, if◌then◌else◌, inl,
  inr, ◌⊎◌, All, Bool-cases, append-nil, append_assoc,
}
use pokoinpos.Prelude.Run.{Run, done, on-true, on-false, on-some}
use pokoinpos.Text.{Text, text_eq}
use pokoinpos.GoMap.{Map, at, insert}
use pokoinpos.Peer.{Message, Peer, no_history, write_message}
use pokoinpos.Peer.Flood.{is_target, flood_to, flood_network, outbound, connection_ids}

-- The connections that a peer with an id really has: only its own entry is nil.
abbrev pub AreOpen : Text → Map (Option ℕ) → Type 0
AreOpen self conns = All (λ e. (text_eq e.0 self ≡ true) ⊎ ((c : ℕ) × (e.1 ≡ some c))) conns

-- Those of some peers that a message goes to: all but the peer itself and those it came from.
unfoldable pub targets : Text → List Text → List Text → List Text
targets self received_from [] = []
targets self received_from (peer ∷ peers) =
    let rest = targets self received_from peers in
    if is_target self received_from peer then peer ∷ rest else rest

-- One copy for each.
abbrev pub copies : Message → List Text → List (Text × Message)
copies msg peers = map (λ peer. (peer, msg)) peers

-- What a run that sends to some peers leaves in the outbox.
abbrev Sends : Run Peer → Message → List Text → Peer → Type 0
Sends m msg peers p = (q : Peer) × (m ≡ done q) × (q.outbox ≡ p.outbox ++ copies msg peers)

true-not-false : true ≡ false → ⊥
true-not-false e = cc

-- The peer itself is no target.
self-is_target :
    (self : Text) (received_from : List Text) (peer : Text)
    → text_eq peer self ≡ true
    → is_target self received_from peer ≡ false
self-is_target self rf peer e = rw e refl

flood_to-Sends :
    (conns : Map (Option ℕ)) (received_from : List Text) (msg : Message) (p : Peer)
    → AreOpen p.id conns
    → Sends
        (flood_to conns received_from msg p)
        msg
        (targets p.id received_from (map (λ e. e.0) conns))
        p
unfolding flood_to targets
flood_to-Sends [] rf msg p links = (p, refl, sym (append-nil p.outbox))
flood_to-Sends ((peer, conn) ∷ rest) rf msg p (o, links) =
    elim (Bool-cases (is_target p.id rf peer)) [
      | inl t ↦ elim o [
        | inl self ↦ elim (true-not-false (sym t ∙ self-is_target p.id rf peer self)) [ ]
        | inr (c, e) ↦
            let (q, run, out) = flood_to-Sends rest rf msg (write_message peer msg p) links in
            (q, on-true _ _ t (on-some _ _ e run), rw t (out ∙ append_assoc p.outbox _ _))
      ]
      | inr f ↦
          let (q, run, out) = flood_to-Sends rest rf msg p links in
          (q, on-false _ _ f run, rw f out)
    ]

-- FloodNetwork on a peer whose connections are open and that has not sent the message yet returns, and
-- sends the message once, with the peer as its sender, to each connected peer but itself and those that
-- it has the message from, and to nobody else.
pub flood_network-targets :
    (msg : Message) (p : Peer)
    → AreOpen p.id p.conns
    → (at no_history msg.msg_id p.msg_history).is_sent ≡ false
    → (q : Peer) × (flood_network msg p ≡ done q)
      × (q.outbox
          ≡ p.outbox
            ++ copies (outbound p msg) (
                targets p.id
                  (at no_history msg.msg_id p.msg_history).received_from
                  (connection_ids p)))
unfolding flood_network connection_ids
flood_network-targets msg p links fresh =
    let hist = at no_history msg.msg_id p.msg_history in
    let marked : Peer = record p {
      msg_history = insert msg.msg_id (record hist { is_sent = true }) p.msg_history;
    } in
    let (q, run, out) = flood_to-Sends p.conns hist.received_from (outbound p msg) marked links in
    (q, on-false _ _ fresh run, out)
