-- ===== src/Peer/Committed/Reached.antt =====
-- The peers that a node in proof-of-stake mode reaches.
use pokoinpos.Prelude.{◌≡◌, Bool, true, false, Option, List, [], ◌∷◌, map, if-holds}
use pokoinpos.Prelude.Int.{ℤ}
use pokoinpos.Prelude.Run.{done, After, After->>=, After-any, After-return, After-done, After-map}
use pokoinpos.Text.{Text}
use pokoinpos.Tx.{SignedTransaction}
use pokoinpos.Crypto.{Account}
use pokoinpos.Genesis.{GenesisMetaData}
use pokoinpos.Chain.Block.{Block}
use pokoinpos.Peer.{Message, Peer, Wire}
use pokoinpos.Peer.Flood.{flood_network, add_received_flood_message}
use pokoinpos.Peer.Frame.{
  Untouched, handle_chain_sync_request-Untouched, handle_join-Untouched, send-Untouched,
}
use pokoinpos.Peer.Mempool.{handle_pos_transaction, best_ledger_would_accept}
use pokoinpos.Peer.Addresses.{sort_by}
use pokoinpos.Peer.Queries.{MempoolTxSummary}
use pokoinpos.Peer.Best.{summaries, mempool_summaries}
use pokoinpos.Peer.Mine.{mine_one_slot}
use pokoinpos.Peer.Receive.{handle_block, deliver}
use pokoinpos.Peer.Connect.{configure_pos, set_finality_depth, handle_join}
use pokoinpos.Peer.Make.{flood_pos_transaction}
use pokoinpos.Peer.Handle.{
  Kind, kind_of, forward, forward_if, pong, handle_kind, on_message, is_delivered,
}
use pokoinpos.Peer.Sync.{handle_chain_sync_request}
use pokoinpos.Peer.Sync.Install.{handle_chain_sync_response}
use pokoinpos.Peer.Committed.{
  IsCommitted, Untouched-IsCommitted, handle_block-IsCommitted, configure_pos-IsCommitted,
  set_finality_depth-IsCommitted,
}
use pokoinpos.Peer.Committed.Mined.{
  handle_pos-IsCommitted, flood-IsCommitted, mine-IsCommitted, flood_pos-IsCommitted,
}
use pokoinpos.Peer.Committed.Synced.{Synced, response_lem}

-- Every kind of message but the legacy transactions, which handin's demo applies to the ledger alone.
abbrev pub IsPosKind : Kind → Type 0
IsPosKind Kind.transaction = ⊥
IsPosKind _ = Unit

module _ (w : Wire) where
  forward-IsCommitted :
      (msg : Message) (p : Peer) → IsCommitted w p → After (IsCommitted w) (forward msg p)
  unfolding forward add_received_flood_message
  forward-IsCommitted msg p h =
      After->>= (IsCommitted w) (IsCommitted w)
        (flood_network msg (add_received_flood_message msg p)) _
        (flood-IsCommitted w msg (add_received_flood_message msg p) h)
        (λ q h'.
          After-return (IsCommitted w)
            (if-holds (IsCommitted w) (is_delivered msg.msg_type) (deliver msg q) q h' h'))

  forward_if-IsCommitted :
      (msg : Message) (ok : Bool) (p : Peer)
      → IsCommitted w p
      → After (IsCommitted w) (forward_if msg ok p)
  unfolding forward_if
  forward_if-IsCommitted msg false p h = After-return (IsCommitted w) h
  forward_if-IsCommitted msg true p h = forward-IsCommitted msg p h

  Synced-IsCommitted :
      (p : Peer) (r : Bool × Peer) → Synced w p r → IsCommitted w p → IsCommitted w r.1
  Synced-IsCommitted p (false, q) u h = Untouched-IsCommitted w p q u h
  Synced-IsCommitted p (true, q) h' h = h'

  handle_kind-IsCommitted :
      (now : ℤ) (from : Text) (msg : Message) (k : Kind) (p : Peer)
      → IsPosKind k
      → IsCommitted w p
      → After (IsCommitted w) (handle_kind w now from msg k p)
  unfolding handle_kind pong
  handle_kind-IsCommitted now from msg Kind.ping p _ h =
      After-return (IsCommitted w)
        (Untouched-IsCommitted w p (pong from msg p) (send-Untouched from _ p) h)
  handle_kind-IsCommitted now from msg Kind.transaction p k h = elim k [ ]
  handle_kind-IsCommitted now from msg Kind.pos_transaction p _ h =
      After->>= (λ r. IsCommitted w r.1) (IsCommitted w) (handle_pos_transaction w msg p) _
        (handle_pos-IsCommitted w msg p h) (λ r h'. forward_if-IsCommitted msg r.0 r.1 h')
  handle_kind-IsCommitted now from msg Kind.block p _ h =
      After->>= (λ r. IsCommitted w r.1) (IsCommitted w) (handle_block w now msg p) _
        (handle_block-IsCommitted w now msg p h) (λ r h'. forward_if-IsCommitted msg r.0 r.1 h')
  handle_kind-IsCommitted now from msg Kind.sync_request p _ h =
      After-map (Untouched p) (IsCommitted w) (handle_chain_sync_request w now from msg p)
        (handle_chain_sync_request-Untouched w now from msg p)
        (λ q u. Untouched-IsCommitted w p q u h)
  handle_kind-IsCommitted now from msg Kind.sync_response p _ h =
      After->>= (Synced w p) (IsCommitted w) (handle_chain_sync_response w now msg p) _
        (response_lem w now msg p)
        (λ r s. After-return (IsCommitted w) (Synced-IsCommitted p r s h))
  handle_kind-IsCommitted now from msg Kind.join p _ h =
      forward-IsCommitted msg (handle_join w msg p)
        (Untouched-IsCommitted w p (handle_join w msg p) (handle_join-Untouched w msg p) h)
  handle_kind-IsCommitted now from msg Kind.other p _ h = forward-IsCommitted msg p h

  -- The loop of MempoolSummaries writes into the mempool alone.
  summaries-IsCommitted :
      (ts : List SignedTransaction) (p : Peer)
      → IsCommitted w p
      → After (λ r. IsCommitted w r.1) (summaries w ts p)
  unfolding summaries
  summaries-IsCommitted [] p h = After-return (λ r. IsCommitted w r.1) h
  summaries-IsCommitted (t ∷ ts) p h =
      let Q : List MempoolTxSummary × Peer → Type 0 = λ r. IsCommitted w r.1 in
      After-any Q (best_ledger_would_accept w t p) _ (λ r.
        After->>= Q Q (summaries w ts _) _ (summaries-IsCommitted ts _ h)
          (λ r h'. After-return Q h'))

  mempool_summaries-IsCommitted :
      (p : Peer) → IsCommitted w p → After (λ r. IsCommitted w r.1) (mempool_summaries w p)
  unfolding mempool_summaries
  mempool_summaries-IsCommitted p h =
      summaries-IsCommitted (sort_by (λ t. t.id) (map (λ e. e.1) p.mempool)) p h

  -- The peers that a node reaches in proof-of-stake mode: ConfigurePoS, then in any order messages,
  -- slots that it mines, transactions that it floods, listings of its mempool, which write the payloads
  -- of pending transactions, and changes of the finality depth.
  pub data Reached : Peer → Type 0 where
    configured :
        (p q : Peer) (genesis : GenesisMetaData) (miner : Option Account)
        → configure_pos w genesis miner p ≡ done q
        → Reached q
    received :
        (p q : Peer) (now : ℤ) (from : Text) (msg : Message)
        → Reached p
        → IsPosKind (kind_of msg.msg_type)
        → on_message w now from msg p ≡ done q
        → Reached q
    mined :
        (p q : Peer) (slot : ℤ) (b : Option Block)
        → Reached p
        → mine_one_slot w slot p ≡ done (b, q)
        → Reached q
    sent :
        (p q : Peer) (t : SignedTransaction)
        → Reached p
        → flood_pos_transaction w t p ≡ done q
        → Reached q
    listed :
        (p q : Peer) (txs : List MempoolTxSummary)
        → Reached p
        → mempool_summaries w p ≡ done (txs, q)
        → Reached q
    finality_set :
        (p q : Peer) (depth : ℤ) → Reached p → set_finality_depth w depth p ≡ done q → Reached q

  -- In every peer that a node reaches in proof-of-stake mode, by messages other than legacy
  -- transactions, by mining, by flooding transactions, by listing its mempool and by changes of the
  -- finality depth, the ledger is what the blockchain computes up to the finality depth.
  pub Reached-IsCommitted : (p : Peer) → Reached p → IsCommitted w p
  unfolding on_message
  Reached-IsCommitted p (configured p0 q genesis miner e) =
      After-done (IsCommitted w) (configure_pos-IsCommitted w genesis miner p0) e
  Reached-IsCommitted p (received p0 q now from msg r k e) =
      After-done (IsCommitted w)
        (handle_kind-IsCommitted now from msg (kind_of msg.msg_type) p0 k
          (Reached-IsCommitted p0 r))
        e
  Reached-IsCommitted p (mined p0 q slot b r e) =
      After-done (λ r. IsCommitted w r.1) (mine-IsCommitted w slot p0 (Reached-IsCommitted p0 r)) e
  Reached-IsCommitted p (sent p0 q t r e) =
      After-done (IsCommitted w) (flood_pos-IsCommitted w t p0 (Reached-IsCommitted p0 r)) e
  Reached-IsCommitted p (listed p0 q txs r e) =
      After-done (λ r. IsCommitted w r.1)
        (mempool_summaries-IsCommitted p0 (Reached-IsCommitted p0 r)) e
  Reached-IsCommitted p (finality_set p0 q depth r e) =
      After-done (IsCommitted w) (set_finality_depth-IsCommitted w depth p0) e
