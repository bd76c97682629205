-- ===== src/Service/Guarded.antt =====
-- Who may change the peer by a request: a POST, and below /admin only with the token; a GET there writes
-- the payloads of pending transactions.
use pokoinpos.Prelude.{
  Bool, true, false, ◌≡◌, refl, ap, arith, [], ◌++◌, ◌⊎◌, inl, inr, if◌then◌else◌,
}
use pokoinpos.Prelude.Run.{
  Run, done, After, After-any, After-if, After-if-known, After-return, After->>=, After-map,
  on-false,
}
use pokoinpos.Text.{Text, txt, text_eq, is_empty, text_eq_iff}
use pokoinpos.Peer.{Peer, Wire}
use pokoinpos.Peer.Best.{mempool_summaries}
use pokoinpos.Peer.Mempool.Payloads.{IsReread, mempool_summaries-IsReread}
use pokoinpos.Service.{
  Request, Response, Gateway, Moment, OpsServer, failure, method_not_allowed, is_admin_authorized,
  with_token, is_post,
}
use pokoinpos.Service.Admin.{Action, admin_mempool, admin_dashboard_status, act, allows, admin}
use pokoinpos.Service.Posts.{rpc, root}
use pokoinpos.Service.Routes.{
  Route, page, admin_action, rpc_route, root_route, serve_page, serve_route, route_of, serve,
}

-- The server has no token, or the header of the request is another one.
abbrev pub IsStranger : OpsServer → Request → Type 0
IsStranger s r = (s.admin_token ≡ []) ⊎ (¬ (r.authorization ≡ txt "Bearer " ++ s.admin_token))

pub false_unless : (b : Bool) → ¬ (b ≡ true) → b ≡ false
false_unless true h = absurd (h refl)
false_unless false h = refl

text_eq-other : (a b : Text) → ¬ (a ≡ b) → text_eq a b ≡ false
text_eq-other a b h = false_unless (text_eq a b) (λ e. h ((text_eq_iff a b).0 e))

pub is_admin_authorized-stranger :
    (s : OpsServer) (r : Request) → IsStranger s r → is_admin_authorized s r ≡ false
unfolding is_admin_authorized
is_admin_authorized-stranger s r (inl e) =
    ap (λ t. if is_empty t then false else text_eq r.authorization (txt "Bearer " ++ t)) e
is_admin_authorized-stranger s r (inr h) =
    let e = text_eq-other r.authorization (txt "Bearer " ++ s.admin_token) h in ground arith

-- What a request that is no POST leaves: the peer is as it was, or the route lists the mempool for who
-- has the token, which writes at most the NFT and AMM payloads of pending transactions.
abbrev pub IsReadBy : OpsServer → Route → Request → Peer → Response × Peer → Type 0
IsReadBy s route r p a =
    (a.1 ≡ p)
    ⊎ ((route ≡ admin_action Action.mempool_list)
        × (is_admin_authorized s r ≡ true)
        × IsReread p a.1)

module _ (w : Wire) (g : Gateway) (s : OpsServer) (now : Moment) where
  -- A request that does not name the token of the server, or any request to a server without a token,
  -- gets 401 from every handler below /admin, or 405 where the handler does not take its method; the
  -- peer stays as it is.
  pub admin-refused :
      (action : Action) (r : Request) (p : Peer)
      → IsStranger s r
      → admin w g s now action r p
        ≡ done (
          if allows w g s now action r
              then failure 401 (txt "admin_auth_required")
              else method_not_allowed,
          p,
        )
  unfolding admin with_token
  admin-refused action r p h =
      let e = is_admin_authorized-stranger s r h in
      elim (allows w g s now action r)
        as (λ allowed.
          with_token s allowed r p (act w g s now action r p)
          ≡ done (
            if allowed then failure 401 (txt "admin_auth_required") else method_not_allowed,
            p,
          )) [ false ↦ refl | true ↦ on-false _ _ e refl ]

  -- A handler that takes no other method than POST, on another one.
  with_token-read_only :
      (r : Request) (p : Peer) (run : Run (Response × Peer))
      → is_post r ≡ false
      → After (λ a. a.1 ≡ p) (with_token s (is_post r) r p run)
  unfolding with_token
  with_token-read_only r p run e =
      let Q : Response × Peer → Type 0 = λ a. a.1 ≡ p in
      After-if-known Q (is_post r) _ _ (λ _. After-return Q refl) (λ e'. cc)

  -- The same of a handler that leaves the peer as it is.
  with_token-unchanged :
      (allowed : Bool) (r : Request) (p : Peer) (run : Run (Response × Peer))
      → After (λ a. a.1 ≡ p) run
      → After (λ a. a.1 ≡ p) (with_token s allowed r p run)
  unfolding with_token
  with_token-unchanged allowed r p run h =
      let Q : Response × Peer → Type 0 = λ a. a.1 ≡ p in
      After-if Q allowed _ _ (After-return Q refl)
        (After-if Q (is_admin_authorized s r) _ _ (After-return Q refl) h)

  listing-IsReadBy :
      (allowed : Bool) (r : Request) (p : Peer)
      → After
          (IsReadBy s (admin_action Action.mempool_list) r p)
          (with_token s allowed r p (admin_mempool w g s now p))
  unfolding with_token admin_mempool
  listing-IsReadBy allowed r p =
      let Q = IsReadBy s (admin_action Action.mempool_list) r p in
      After-if Q allowed _ _ (After-return Q (inl refl)) (
        After-if-known Q (is_admin_authorized s r) _ _ (λ _. After-return Q (inl refl))
          (λ e.
            After->>= (λ a. IsReread p a.1) Q (mempool_summaries w p) _
              (mempool_summaries-IsReread w p) (λ a h. After-return Q (inr (refl, e, h)))))

  read_only-IsReadBy :
      (route : Route) (r : Request) (p : Peer) (run : Run (Response × Peer))
      → After (λ a. a.1 ≡ p) run
      → After (IsReadBy s route r p) run
  read_only-IsReadBy route r p run h = After-map _ (IsReadBy s route r p) run h (λ a e. inl e)

  status-read_only :
      (allowed : Bool) (r : Request) (p : Peer)
      → After (λ a. a.1 ≡ p) (with_token s allowed r p (admin_dashboard_status w g s now p))
  unfolding admin_dashboard_status
  status-read_only allowed r p =
      let Q : Response × Peer → Type 0 = λ a. a.1 ≡ p in
      with_token-unchanged allowed r p _ (After-return Q refl)

  admin-read_only :
      (action : Action) (r : Request) (p : Peer)
      → is_post r ≡ false
      → After (IsReadBy s (admin_action action) r p) (admin w g s now action r p)
  unfolding admin allows act
  admin-read_only Action.mempool_list r p e = listing-IsReadBy _ r p
  admin-read_only Action.dashboard_state r p e = read_only-IsReadBy _ r p _ (status-read_only _ r p)
  admin-read_only Action.mining r p e = read_only-IsReadBy _ r p _ (with_token-read_only r p _ e)
  admin-read_only Action.minting r p e = read_only-IsReadBy _ r p _ (with_token-read_only r p _ e)
  admin-read_only Action.withdrawal r p e =
      read_only-IsReadBy _ r p _ (with_token-read_only r p _ e)
  admin-read_only Action.nft_minting r p e =
      read_only-IsReadBy _ r p _ (with_token-read_only r p _ e)
  admin-read_only Action.nft_transferring r p e =
      read_only-IsReadBy _ r p _ (with_token-read_only r p _ e)
  admin-read_only Action.pool_creation r p e =
      read_only-IsReadBy _ r p _ (with_token-read_only r p _ e)
  admin-read_only Action.liquidity_addition r p e =
      read_only-IsReadBy _ r p _ (with_token-read_only r p _ e)
  admin-read_only Action.crediting r p e = read_only-IsReadBy _ r p _ (with_token-read_only r p _ e)
  admin-read_only Action.debiting r p e = read_only-IsReadBy _ r p _ (with_token-read_only r p _ e)

  -- The two handlers of JSON-RPC, on a method that is no POST.
  rpc-read_only :
      (r : Request) (p : Peer) → is_post r ≡ false → After (λ a. a.1 ≡ p) (rpc w g s now r p)
  unfolding rpc
  rpc-read_only r p e =
      let Q : Response × Peer → Type 0 = λ a. a.1 ≡ p in
      After-if Q (text_eq r.method (txt "OPTIONS")) _ _
        (After-if-known Q (is_post r) _ _ (λ _. After-return Q refl) (λ e'. cc))
        (After-return Q refl)

  root-read_only :
      (r : Request) (p : Peer) → is_post r ≡ false → After (λ a. a.1 ≡ p) (root w g s now r p)
  unfolding root
  root-read_only r p e =
      let Q : Response × Peer → Type 0 = λ a. a.1 ≡ p in
      After-if Q (text_eq r.method (txt "OPTIONS")) _ _
        (After-if-known Q (is_post r) _ _ (λ _. After-return Q refl) (λ e'. cc))
        (After-return Q refl)

  serve_route-IsReadBy :
      (route : Route) (r : Request) (p : Peer)
      → is_post r ≡ false
      → After (IsReadBy s route r p) (serve_route w g s now route r p)
  unfolding serve_route
  serve_route-IsReadBy (page name) r p e =
      let Q = IsReadBy s (page name) r p in
      After-any Q (serve_page w g s now name r p) _ (λ answer. After-return Q (inl refl))
  serve_route-IsReadBy (admin_action action) r p e = admin-read_only action r p e
  serve_route-IsReadBy rpc_route r p e = read_only-IsReadBy _ r p _ (rpc-read_only r p e)
  serve_route-IsReadBy root_route r p e = read_only-IsReadBy _ r p _ (root-read_only r p e)

  -- A request that is no POST leaves the peer as it is, whatever path it names, if the handler returns;
  -- but for the list of the mempool, which who has the token gets: after it the peer differs at most in
  -- the NFT and AMM payloads of its pending transactions.
  pub serve-read_only :
      (r : Request) (p : Peer)
      → ¬ (r.method ≡ txt "POST")
      → After (IsReadBy s (route_of r.path) r p) (serve w g s now r p)
  unfolding serve
  serve-read_only r p h =
      serve_route-IsReadBy (route_of r.path) r p (text_eq-other r.method (txt "POST") h)
