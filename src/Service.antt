-- ===== src/Service.antt =====
-- peer/runtime_ops.go: the HTTP service of a node. A handler is a function of the request and the peer
-- to the response and the next peer. `Any` has the values that the source hands to json.Encoder and
-- those that json.Unmarshal puts into an `any`; the structs among them stay as they are.
pub mod Pages
pub mod Info
pub mod Holdings
pub mod Explore
pub mod Replies
pub mod Admin
pub mod Rpc
pub mod Methods
pub mod Calls
pub mod Objects
pub mod Dispatch
pub mod Posts
pub mod Routes
pub mod Numbers
pub mod Guarded
pub mod Quotes
pub mod Logs
pub mod Paging
pub mod Static
pub mod Keeps
pub mod Steps
use pokoinpos.Prelude.{
  ℕ, ◌*◌, ◌^◌, ◌+◌, Bool, true, false, Option, none, some, List, [], ◌∷◌, ◌++◌, if◌then◌else◌, ◌==◌,
  suc,
}
use pokoinpos.Prelude.Int.{ℤ, pos, negsuc, ◌*ℤ◌}
use pokoinpos.Prelude.Run.{Run, done}
use pokoinpos.Text.{Text, txt, text_eq, is_empty}
use pokoinpos.Text.Hex.{hex_text}
use pokoinpos.GoMap.{Map}
use pokoinpos.Tx.{NftPayload, AmmPayload, NftToken, AmmPool, SignedTransaction}
use pokoinpos.Ledger.{EvmAccount}
use pokoinpos.Evm.{Call}
use pokoinpos.Explorer.{ExplorerTx, ExplorerBlock}
use pokoinpos.Bootstrap.{BootstrapRegistry, BootstrapRegistryStatus}
use pokoinpos.Peer.{Peer}
use pokoinpos.Peer.Queries.{PeerAuthorization, MempoolTxSummary, SupplySnapshot}

pub record ExplorerAddress : Type 0 where
  pub address : Text
  pub balance : ℤ
  pub nonce : ℕ
  pub transaction_count : ℕ
  pub transactions : List ExplorerTx

pub record AmmQuote : Type 0 where
  pub pool_id : Text
  pub asset_in : Text
  pub asset_out : Text
  pub amount_in : ℤ
  pub amount_out : ℤ
  pub fee_bps : ℤ
  pub reserve_in : ℤ
  pub reserve_out : ℤ
  pub price_numerator : ℤ
  pub price_denominator : ℤ

mutual
  pub data Any : Type 0 where
    nil : Any
    text : Text → Any
    number : ℤ → Any
    boolean : Bool → Any
    items : Anys → Any
    object : Fields → Any
    any_explorer_tx : ExplorerTx → Any
    any_explorer_block : ExplorerBlock → Any
    any_explorer_address : ExplorerAddress → Any
    any_nft_token : NftToken → Any
    any_amm_pool : AmmPool → Any
    any_amm_quote : AmmQuote → Any
    peer_authorization : PeerAuthorization → Any
    mempool_tx : MempoolTxSummary → Any
    supply : SupplySnapshot → Any
    bootstrap_status : BootstrapRegistryStatus → Any

  pub data Anys : Type 0 where
    no_items : Anys
    item : Any → Anys → Anys

  pub data Fields : Type 0 where
    no_fields : Fields
    field : Text → Any → Fields → Fields

-- A slice of values of one type.
unfoldable pub slice {ℓ} : {A : Type ℓ} → (A → Any) → List A → Anys
slice f [] = no_items
slice f (a ∷ rest) = item (f a) (slice f rest)

-- A map literal.
unfoldable pub map_of : List (Text × Any) → Fields
map_of [] = no_fields
map_of ((key, value) ∷ rest) = field key value (map_of rest)

abbrev pub literal : List (Text × Any) → Any
literal entries = object (map_of entries)

abbrev pub natural : ℕ → Any
natural n = number (pos n)

-- What a handler reads of a request: its method, URL.Path, the header Authorization, URL.Query().Get
-- and the body.
pub record Request : Type 0 where
  pub method : Text
  pub path : Text
  pub authorization : Text
  pub query : Text → Text
  pub body : Text

-- writeJSON with its code, a text, a code without a body, or one of the two constants of the source
-- (nodeDashboardHTML and the list of endpoints) by its name.
pub data Response : Type 0 where
  constant : Text → Response
  json : ℕ → Any → Response
  plain : Text → Response
  bare : ℕ → Response

pub record RpcRequest : Type 0 where
  pub id : Any
  pub method : Text
  pub params : List Any

pub record MintRequest : Type 0 where
  pub to : Text
  pub amount : ℤ

pub record WithdrawRequest : Type 0 where
  pub to : Text
  pub amount : ℤ

pub record NftMintRequest : Type 0 where
  pub collection_id : Text
  pub token_id : Text
  pub owner : Text
  pub metadata_uri : Text
  pub metadata_hash : Text
  pub image_uri : Text

pub record NftTransferRequest : Type 0 where
  pub collection_id : Text
  pub token_id : Text
  pub to : Text

pub record AssetAccountingRequest : Type 0 where
  pub asset : Text
  pub account : Text
  pub amount : ℤ

pub record SwapPoolRequest : Type 0 where
  pub asset_a : Text
  pub asset_b : Text

pub record SwapAddLiquidityRequest : Type 0 where
  pub pool_id : Text
  pub amount_a : ℤ
  pub amount_b : ℤ

-- A StaticCall of the virtual machine: the calls that it makes on the adapter, and what it returns.
pub record StaticRun : Type 0 where
  pub calls : List Call
  pub output : Option Text

-- What the service calls besides: the decoding of bodies and of JSON, go-ethereum's hexadecimal texts
-- and addresses, and the machine.
pub record Gateway : Type 0 where
  pub decode_raw : Text → Option Any
  pub decode_batch : Any → Option (List RpcRequest)
  pub decode_request : Any → Option RpcRequest
  pub decode_mint : Text → Option MintRequest
  pub decode_withdraw : Text → Option WithdrawRequest
  pub decode_nft_mint : Text → Option NftMintRequest
  pub decode_nft_transfer : Text → Option NftTransferRequest
  pub decode_accounting : Text → Option AssetAccountingRequest
  pub decode_pool : Text → Option SwapPoolRequest
  pub decode_liquidity : Text → Option SwapAddLiquidityRequest
  pub nft_json : Option NftPayload → Option NftPayload
  pub amm_json : Option AmmPayload → Option AmmPayload
  pub from_hex : Text → Text
  pub hash_hex : Text → Text
  pub create_address : Text → ℕ → Text
  pub static_call : Map EvmAccount → Text → Text → Text → StaticRun

-- time.Now().UnixNano(), the same time as an RFC 3339 text, and the seconds since the start.
pub record Moment : Type 0 where
  pub unix_nano : ℤ
  pub stamp : Text
  pub uptime_seconds : ℤ

pub record OpsServer : Type 0 where
  pub admin_token : Text
  pub evm_chain_id : ℤ
  pub evm_network_id : Text
  pub bootstrap : Option BootstrapRegistry
  pub reserved_supply_addresses : List Text

abbrev pub node_version : Text
node_version = txt "PokoinPoS/v0.2.0"

-- `writeJSON(w, code, map[string]any{"error": name})`
abbrev pub failure : ℕ → Text → Response
failure code name = json code (literal ((txt "error", text name) ∷ []))

abbrev pub method_not_allowed : Response
method_not_allowed = failure 405 (txt "method_not_allowed")

unfoldable pub hex_quantity : ℤ → Text
hex_quantity (pos n) = if n == 0 then txt "0x0" else txt "0x" ++ hex_text n
hex_quantity (negsuc n) = txt "0x-" ++ hex_text (suc n)

unfoldable pub pk_to_evm_value : ℤ → ℤ
pk_to_evm_value amount = amount *ℤ pos (10 ^ 18)

abbrev pub evm_gas_price : Text
evm_gas_price = txt "0x3b9aca00"

abbrev pub evm_gas_limit : Text
evm_gas_limit = txt "0x1c9c380"

unfoldable pub is_admin_authorized : OpsServer → Request → Bool
is_admin_authorized s r =
    if is_empty s.admin_token
    then false
    else text_eq r.authorization (txt "Bearer " ++ s.admin_token)

-- The first test of a handler that only answers GET.
unfoldable pub get_only : Request → Run Response → Run Response
get_only r answer = elim (text_eq r.method (txt "GET")) [
  | false ↦ done method_not_allowed
  | true ↦ answer
]

-- The first two tests of a handler that needs the token; `allowed` is the test of the method.
unfoldable pub with_token :
    OpsServer → Bool → Request → Peer → Run (Response × Peer) → Run (Response × Peer)
with_token s allowed r p act = elim allowed [
  | false ↦ done (method_not_allowed, p)
  | true ↦ elim (is_admin_authorized s r) [
    | false ↦ done (failure 401 (txt "admin_auth_required"), p)
    | true ↦ act
  ]
]

abbrev pub is_post : Request → Bool
is_post r = text_eq r.method (txt "POST")
