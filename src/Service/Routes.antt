-- ===== src/Service/Routes.antt =====
-- peer/runtime_ops.go: the routes of StartOpsServer and the tests of the method in the handlers. A path
-- is clean (http.ServeMux redirects another one); requests are served one after another.
use pokoinpos.Prelude.{true, false, ◌||◌, List, [], ◌∷◌, none, some, if◌then◌else◌}
use pokoinpos.Prelude.Run.{Run, done, ◌>>=◌}
use pokoinpos.Text.{Text, txt, text_eq, has_prefix}
use pokoinpos.GoMap.{Map, lookup}
use pokoinpos.Peer.{Peer, Wire}
use pokoinpos.Service.{
  Request, Response, constant, Gateway, Moment, OpsServer, method_not_allowed, get_only,
}
use pokoinpos.Service.Pages.{
  health, ready, chain_status_page, chain_supply, total_supply_text, circulating_supply_text,
  validators, bootstrap_page, metrics,
}
use pokoinpos.Service.Info.{chain_info}
use pokoinpos.Service.Holdings.{chain_nfts, swap_pools, swap_balances, swap_quote}
use pokoinpos.Service.Explore.{
  explorer_blocks, explorer_block_page, explorer_tx_page, explorer_address_page, explorer_search,
}
use pokoinpos.Service.Admin.{Action, admin}
use pokoinpos.Service.Posts.{rpc, root}

pub data Page : Type 0 where
  healthy readiness dashboard status information supply total_text circulating_text : Page
  nfts pools balances quote validator_list bootstrap_state gauges endpoints : Page
  block_list one_block one_tx one_address search : Page

pub data Route : Type 0 where
  page : Page → Route
  admin_action : Action → Route
  rpc_route root_route : Route

-- The patterns that name one path.
unfoldable pub exact_routes : Map Route
exact_routes =
    (txt "/health", page Page.healthy)
    ∷ (txt "/ready", page Page.readiness)
    ∷ (txt "/dashboard", page Page.dashboard)
    ∷ (txt "/deshboard", page Page.dashboard)
    ∷ (txt "/chain/status", page Page.status)
    ∷ (txt "/chain/info", page Page.information)
    ∷ (txt "/chain/exchange-info", page Page.information)
    ∷ (txt "/chain/supply", page Page.supply)
    ∷ (txt "/chain/supply/total.txt", page Page.total_text)
    ∷ (txt "/chain/supply/circulating.txt", page Page.circulating_text)
    ∷ (txt "/chain/nfts", page Page.nfts)
    ∷ (txt "/chain/swap/pools", page Page.pools)
    ∷ (txt "/chain/swap/quote", page Page.quote)
    ∷ (txt "/chain/validators", page Page.validator_list)
    ∷ (txt "/chain/bootstrap", page Page.bootstrap_state)
    ∷ (txt "/metrics", page Page.gauges)
    ∷ (txt "/endpoints", page Page.endpoints)
    ∷ (txt "/explorer/blocks", page Page.block_list)
    ∷ (txt "/explorer/search", page Page.search)
    ∷ (txt "/rpc", rpc_route)
    ∷ (txt "/admin/dashboard/status", admin_action Action.dashboard_state)
    ∷ (txt "/admin/mempool", admin_action Action.mempool_list)
    ∷ (txt "/admin/mine", admin_action Action.mining)
    ∷ (txt "/admin/mint", admin_action Action.minting)
    ∷ (txt "/admin/withdraw", admin_action Action.withdrawal)
    ∷ (txt "/admin/nft/mint", admin_action Action.nft_minting)
    ∷ (txt "/admin/nft/transfer", admin_action Action.nft_transferring)
    ∷ (txt "/admin/swap/pools", admin_action Action.pool_creation)
    ∷ (txt "/admin/swap/liquidity/add", admin_action Action.liquidity_addition)
    ∷ (txt "/admin/assets/credit", admin_action Action.crediting)
    ∷ (txt "/admin/assets/debit", admin_action Action.debiting)
    ∷ []

-- The patterns that end with a slash and name the paths below; no two of them fit one path.
unfoldable pub subtree_routes : Map Route
subtree_routes =
    (txt "/chain/nfts/", page Page.nfts)
    ∷ (txt "/chain/swap/pools/", page Page.pools)
    ∷ (txt "/chain/swap/balances/", page Page.balances)
    ∷ (txt "/explorer/blocks/", page Page.one_block)
    ∷ (txt "/explorer/tx/", page Page.one_tx)
    ∷ (txt "/explorer/address/", page Page.one_address)
    ∷ []

-- The pattern "/" takes what no other one takes.
unfoldable pub below_route : Map Route → Text → Route
below_route [] path = root_route
below_route ((prefix, route) ∷ rest) path =
    let other = below_route rest path in if has_prefix path prefix then route else other

unfoldable pub route_of : Text → Route
route_of path = elim (lookup path exact_routes) [
  | some route ↦ route
  | none ↦ below_route subtree_routes path
]

-- The handlers of the two texts answer HEAD too.
unfoldable pub get_or_head : Request → Run Response → Run Response
get_or_head r answer = elim (text_eq r.method (txt "GET") || text_eq r.method (txt "HEAD")) [
  | false ↦ done method_not_allowed
  | true ↦ answer
]

module _ (w : Wire) (g : Gateway) (s : OpsServer) (now : Moment) where
  unfoldable pub serve_page : Page → Request → Peer → Run Response
  serve_page Page.healthy r p = get_only r (health w s now p)
  serve_page Page.readiness r p = get_only r (ready w s now p)
  serve_page Page.dashboard r p = get_only r (done (constant (txt "nodeDashboardHTML")))
  serve_page Page.status r p = get_only r (chain_status_page w s now p)
  serve_page Page.information r p = get_only r (chain_info w s now p)
  serve_page Page.supply r p = get_only r (chain_supply w s now p)
  serve_page Page.total_text r p = get_or_head r (total_supply_text w s now p)
  serve_page Page.circulating_text r p = get_or_head r (circulating_supply_text w s now p)
  serve_page Page.nfts r p = get_only r (chain_nfts w r p)
  serve_page Page.pools r p = get_only r (swap_pools w r p)
  serve_page Page.balances r p = get_only r (swap_balances w r p)
  serve_page Page.quote r p = get_only r (swap_quote w r p)
  serve_page Page.validator_list r p = get_only r (validators w s now p)
  serve_page Page.bootstrap_state r p = get_only r (bootstrap_page w s now p)
  serve_page Page.gauges r p = get_only r (metrics w s now p)
  serve_page Page.endpoints r p = get_only r (done (constant (txt "endpoints")))
  serve_page Page.block_list r p = get_only r (explorer_blocks w r p)
  serve_page Page.one_block r p = get_only r (explorer_block_page w r p)
  serve_page Page.one_tx r p = get_only r (explorer_tx_page w r p)
  serve_page Page.one_address r p = get_only r (explorer_address_page w r p)
  serve_page Page.search r p = get_only r (explorer_search w r p)

  -- The handler of a route, on a request.
  unfoldable pub serve_route : Route → Request → Peer → Run (Response × Peer)
  serve_route (page name) r p = do answer ← serve_page name r p; done (answer, p)
  serve_route (admin_action action) r p = admin w g s now action r p
  serve_route rpc_route r p = rpc w g s now r p
  serve_route root_route r p = root w g s now r p

  unfoldable pub serve : Request → Peer → Run (Response × Peer)
  serve r p = serve_route (route_of r.path) r p

  -- The requests of a node, one after another.
  unfoldable pub serve_all : List Request → Peer → Run (List Response × Peer)
  serve_all [] p = done ([], p)
  serve_all (r ∷ rs) p = do
    (answer, q) ← serve r p
    (answers, q') ← serve_all rs q
    done (answer ∷ answers, q')
