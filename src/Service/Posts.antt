-- ===== src/Service/Posts.antt =====
-- peer/runtime_ops.go: the handlers rpc and root, for one request or a batch.
use pokoinpos.Prelude.{Bool, true, false, none, some, List, [], ◌∷◌}
use pokoinpos.Prelude.Run.{Run, done, ◌>>=◌}
use pokoinpos.Text.{txt, text_eq}
use pokoinpos.Peer.{Peer, Wire}
use pokoinpos.Service.{
  Any, Anys, text, number, items, no_items, item, literal, Request, Response, RpcRequest, json,
  bare, Gateway, Moment, OpsServer, method_not_allowed, is_post,
}
use pokoinpos.Service.Rpc.{Answer, result, rpc_error, parse_error}
use pokoinpos.Service.Dispatch.{handle_rpc}

module _ (w : Wire) (g : Gateway) (s : OpsServer) (now : Moment) where
  unfoldable pub rpc_object : Any → Answer → Any
  rpc_object id (result value) =
      literal ((txt "jsonrpc", text (txt "2.0")) ∷ (txt "id", id) ∷ (txt "result", value) ∷ [])
  rpc_object id (rpc_error code message) = literal (
      (txt "jsonrpc", text (txt "2.0"))
      ∷ (txt "id", id)
      ∷ (txt "error", literal ((txt "code", number code) ∷ (txt "message", text message) ∷ []))
      ∷ [])

  unfoldable pub rpc_response : RpcRequest → Peer → Run (Any × Peer)
  rpc_response r p = do (a, q) ← handle_rpc w g s now r p; done (rpc_object r.id a, q)

  -- The requests of a batch, one after another.
  unfoldable pub rpc_batch : List RpcRequest → Peer → Run (Anys × Peer)
  rpc_batch [] p = done (no_items, p)
  rpc_batch (r ∷ rs) p = do
    (answer, q) ← rpc_response r p
    (answers, q') ← rpc_batch rs q
    done (item answer answers, q')

  unfoldable pub is_batch : Any → Bool
  is_batch (items list) = true
  is_batch _ = false

  -- What rpc does with the JSON value of the body.
  unfoldable pub rpc_on : Any → Peer → Run (Response × Peer)
  rpc_on raw p = elim (is_batch raw) [
    | true ↦ elim (g.decode_batch raw) [
      | none ↦ done (json 200 parse_error, p)
      | some requests ↦ do (answers, q) ← rpc_batch requests p; done (json 200 (items answers), q)
    ]
    | false ↦ elim (g.decode_request raw) [
      | none ↦ done (json 200 parse_error, p)
      | some r ↦ do (answer, q) ← rpc_response r p; done (json 200 answer, q)
    ]
  ]

  unfoldable pub rpc_post : Request → Peer → Run (Response × Peer)
  rpc_post r p = elim (g.decode_raw r.body) [
    | none ↦ done (json 400 parse_error, p)
    | some raw ↦ rpc_on raw p
  ]

  unfoldable pub rpc : Request → Peer → Run (Response × Peer)
  rpc r p = elim (text_eq r.method (txt "OPTIONS")) [
    | true ↦ done (bare 204, p)
    | false ↦ elim (is_post r) [ false ↦ done (method_not_allowed, p) | true ↦ rpc_post r p ]
  ]

  unfoldable pub root : Request → Peer → Run (Response × Peer)
  root r p = elim (text_eq r.method (txt "OPTIONS")) [
    | true ↦ done (bare 204, p)
    | false ↦ elim (is_post r) [ true ↦ rpc r p | false ↦ done (bare 404, p) ]
  ]
