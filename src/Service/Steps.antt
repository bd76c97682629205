-- ===== src/Service/Steps.antt =====
-- The service as steps of a peer: what is kept by flooding a transaction, by mining a slot and by
-- listing the mempool is kept by every request.
use pokoinpos.Prelude.{ℕ, ◌||◌, List, [], ◌∷◌, ltb}
use pokoinpos.Prelude.Int.{ℤ, ltb_ℤ}
use pokoinpos.Prelude.Run.{
  Run, done, After, After-return, After->>=, After-any, After-if, After-option, After-map,
  After-self,
}
use pokoinpos.Text.{Text, txt, text_eq}
use pokoinpos.GoMap.{lookup}
use pokoinpos.Tx.{SignedTransaction}
use pokoinpos.Explorer.Rpc.{Reply, accept_raw, send_raw_transaction}
use pokoinpos.Peer.{Peer, Wire}
use pokoinpos.Transaction.Make.{new_evm_transaction}
use pokoinpos.Peer.Mempool.{best_nonce_of, pending_nonce_of}
use pokoinpos.Peer.Best.{best_balance_of, mempool_summaries}
use pokoinpos.Peer.Mine.{mine_one_slot}
use pokoinpos.Peer.Make.{flood_pos_transaction}
use pokoinpos.Peer.Committed.Reached.{Reached, sent, mined, listed, Reached-IsCommitted}
use pokoinpos.Peer.Committed.{IsCommitted}
use pokoinpos.Service.{Any, Request, RpcRequest, Gateway, Moment, OpsServer, is_post}
use pokoinpos.Service.Rpc.{Answer, read_text, with_text}
use pokoinpos.Service.Dispatch.{read_methods, read_method, send_raw, handle_rpc}
use pokoinpos.Service.Posts.{rpc_response, rpc_batch, is_batch, rpc_on, rpc_post, rpc, root}
use pokoinpos.Service.Routes.{
  Route, page, admin_action, rpc_route, root_route, serve_page, serve_route, route_of, serve,
  serve_all,
}
use pokoinpos.Service.Keeps.{Leaves, admin-lem}

module _ (w : Wire) (g : Gateway) (s : OpsServer) (now : Moment) (K : Peer → Type 0)
    (floods : (t : SignedTransaction) (p : Peer) → K p → After K (flood_pos_transaction w t p))
    (mines : (slot : ℤ) (p : Peer) → K p → Leaves K (mine_one_slot w slot p))
    (lists : (p : Peer) → K p → Leaves K (mempool_summaries w p)) where
  accept_raw-lem :
      (t : SignedTransaction) (best pending : ℕ) (balance : ℤ) (p : Peer)
      → K p
      → Leaves K (accept_raw w t best pending balance p)
  unfolding accept_raw After
  accept_raw-lem t best pending balance p h =
      let Q : Reply × Peer → Type 0 = λ r. K r.1 in
      After-if Q (ltb t.nonce best || ltb pending t.nonce) _ _
        (After-if Q (ltb_ℤ balance t.amount) _ _
          (After->>= K Q (flood_pos_transaction w t p) _ (floods t p h) (λ q h'. h')) h)
        h

  send_raw_transaction-lem :
      (raw : Text) (p : Peer) → K p → Leaves K (send_raw_transaction w s.evm_chain_id raw p)
  unfolding send_raw_transaction
  send_raw_transaction-lem raw p h =
      let Q : Reply × Peer → Type 0 = λ r. K r.1 in
      After-option Q (new_evm_transaction w.platform raw s.evm_chain_id) _ _ (After-return Q h)
        (λ t. After-any Q (best_nonce_of w p t.from) _ (λ best.
          After-any Q (pending_nonce_of w p t.from) _ (λ pending.
            After-any Q (best_balance_of w t.from p) _
              (λ balance. accept_raw-lem t best pending balance p h))))

  send_raw-lem : (raw : Text) (p : Peer) → K p → Leaves K (send_raw w g s now raw p)
  unfolding send_raw After
  send_raw-lem raw p h =
      After->>= (λ r. K r.1) (λ r. K r.1) (send_raw_transaction w s.evm_chain_id raw p) _
        (send_raw_transaction-lem raw p h) (λ r h'. h')

  with_text-lem :
      (params : List Any) (missing wrong : Text) (p : Peer) (k : Text → Run (Answer × Peer))
      → K p
      → ((text : Text) → Leaves K (k text))
      → Leaves K (with_text params (λ a. done (a, p)) missing wrong k)
  unfolding with_text After
  with_text-lem [] missing wrong p k h then = h
  with_text-lem (param ∷ rest) missing wrong p k h then =
      After-option (λ r. K r.1) (read_text [] param) _ _ h then

  handle_rpc-lem : (r : RpcRequest) (p : Peer) → K p → Leaves K (handle_rpc w g s now r p)
  unfolding handle_rpc After
  handle_rpc-lem r p h =
      After-if (λ r. K r.1) (text_eq r.method (txt "eth_sendRawTransaction")) _ _
        (After-option (λ r. K r.1) (lookup r.method read_methods) _ _ h
          (λ method. After-any (λ r. K r.1) (read_method w g s now method r.params p) _ (λ a. h)))
        (with_text-lem r.params _ _ p _ h (λ raw. send_raw-lem raw p h))

  rpc_response-lem : (r : RpcRequest) (p : Peer) → K p → Leaves K (rpc_response w g s now r p)
  unfolding rpc_response After
  rpc_response-lem r p h =
      After->>= (λ r. K r.1) (λ r. K r.1) (handle_rpc w g s now r p) _ (handle_rpc-lem r p h)
        (λ r h'. h')

  rpc_batch-lem : (rs : List RpcRequest) (p : Peer) → K p → Leaves K (rpc_batch w g s now rs p)
  unfolding rpc_batch After
  rpc_batch-lem [] p h = h
  rpc_batch-lem (r ∷ rs) p h =
      After->>= (λ r. K r.1) (λ r. K r.1) (rpc_response w g s now r p) _ (rpc_response-lem r p h)
        (λ q h'.
          After->>= (λ r. K r.1) (λ r. K r.1) (rpc_batch w g s now rs q.1) _
            (rpc_batch-lem rs q.1 h') (λ q' h''. h''))

  rpc-lem : (r : Request) (p : Peer) → K p → Leaves K (rpc w g s now r p)
  unfolding rpc rpc_post rpc_on After
  rpc-lem r p h =
      After-if (λ r. K r.1) (text_eq r.method (txt "OPTIONS")) _ _
        (After-if (λ r. K r.1) (is_post r) _ _ h
          (After-option (λ r. K r.1) (g.decode_raw r.body) _ _ h
            (λ raw.
              After-if (λ r. K r.1) (is_batch w g s now raw) _ _
                (After-option (λ r. K r.1) (g.decode_request raw) _ _ h
                  (λ req.
                    After->>= (λ r. K r.1) (λ r. K r.1) (rpc_response w g s now req p) _
                      (rpc_response-lem req p h) (λ r h'. h')))
                (After-option (λ r. K r.1) (g.decode_batch raw) _ _ h
                  (λ requests.
                    After->>= (λ r. K r.1) (λ r. K r.1) (rpc_batch w g s now requests p) _
                      (rpc_batch-lem requests p h) (λ r h'. h'))))))
        h

  pub serve_route-lem :
      (route : Route) (r : Request) (p : Peer) → K p → Leaves K (serve_route w g s now route r p)
  unfolding serve_route root After
  serve_route-lem (page name) r p h =
      After-any (λ r. K r.1) (serve_page w g s now name r p) _ (λ answer. h)
  serve_route-lem (admin_action action) r p h =
      admin-lem w g s now K floods mines lists action r p h
  serve_route-lem rpc_route r p h = rpc-lem r p h
  serve_route-lem root_route r p h =
      After-if (λ r. K r.1) (text_eq r.method (txt "OPTIONS")) _ _
        (After-if (λ r. K r.1) (is_post r) _ _ h (rpc-lem r p h)) h

  pub serve_all-lem : (rs : List Request) (p : Peer) → K p → Leaves K (serve_all w g s now rs p)
  unfolding serve_all serve After
  serve_all-lem [] p h = h
  serve_all-lem (r ∷ rs) p h =
      After->>= (λ r. K r.1) (λ r. K r.1) (serve_route w g s now (route_of r.path) r p) _
        (serve_route-lem (route_of r.path) r p h)
        (λ q h'.
          After->>= (λ r. K r.1) (λ r. K r.1) (serve_all w g s now rs q.1) _
            (serve_all-lem rs q.1 h') (λ q' h''. h''))

-- Whatever requests are served one after another, if all are answered: from a peer that the node reaches
-- in proof-of-stake mode they lead to one that it reaches.
pub serve_all-Reached :
    (w : Wire) (g : Gateway) (s : OpsServer) (now : Moment) (rs : List Request) (p : Peer)
    → Reached w p
    → After (λ r. Reached w r.1) (serve_all w g s now rs p)
serve_all-Reached w g s now rs p h =
    serve_all-lem w g s now (Reached w)
      (λ t p h.
        After-map _ (Reached w) _ (After-self (flood_pos_transaction w t p))
          (λ q e. sent p q t h e))
      (λ slot p h.
        After-map _ (λ r. Reached w r.1) _ (After-self (mine_one_slot w slot p))
          (λ r e. mined p r.1 slot r.0 h e))
      (λ p h.
        After-map _ (λ r. Reached w r.1) _ (After-self (mempool_summaries w p))
          (λ r e. listed p r.1 r.0 h e))
      rs p h

-- The ledger of a peer after answered requests is the one that its blockchain computes up to the finality
-- depth.
pub serve_all-IsCommitted :
    (w : Wire) (g : Gateway) (s : OpsServer) (now : Moment) (rs : List Request) (p : Peer)
    → Reached w p
    → After (λ r. IsCommitted w r.1) (serve_all w g s now rs p)
serve_all-IsCommitted w g s now rs p h =
    After-map (λ r. Reached w r.1) (λ r. IsCommitted w r.1) (serve_all w g s now rs p)
      (serve_all-Reached w g s now rs p h) (λ r. Reached-IsCommitted w r.1)
