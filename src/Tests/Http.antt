-- ===== src/Tests/Http.antt =====
-- The theorems on the HTTP service, at concrete requests.
use pokoinpos.Prelude.{
  zero, suc, drop, List, Option, sym, ℕ, false, none, some, [], ◌∷◌, ◌≡◌, refl, ap, inr, arith,
  if◌then◌else◌,
}
use pokoinpos.Prelude.Int.{
  ℤ, pos, leb_ℤ, add_int, div_int, mul_int, quotient, sub_int, wrap, ◌*ℤ◌, ◌+ℤ◌, ◌-ℤ◌,
}
use pokoinpos.Prelude.Run.{done, After}
use pokoinpos.Text.{Text, txt, to_upper, text_eq, text_ltb, to_lower, trim_space}
use pokoinpos.Assets.{normalize_asset}
use pokoinpos.Amm.{reserves_for, quote_swap, apply_swap, quote_reserves}
use pokoinpos.Explorer.Rpc.{block_at, parse_hex_uint64}
use pokoinpos.Peer.Committed.Reached.{Reached, configured}
use pokoinpos.Service.{
  Request, Gateway, Moment, OpsServer, AmmQuote, json, any_amm_quote, failure, method_not_allowed,
  hex_quantity, map_of, slice,
}
use pokoinpos.Service.Admin.{Action, admin, allows}
use pokoinpos.Service.Holdings.{quote_on, quote_of}
use pokoinpos.Service.Routes.{serve, serve_all, route_of}
use pokoinpos.Service.Steps.{serve_all-Reached}
use pokoinpos.Service.Guarded.{IsReadBy, serve-read_only, admin-refused}
use pokoinpos.Service.Numbers.{parse_hex_uint64-hex_quantity}
use pokoinpos.Service.Quotes.{quote_on-reserves}
use pokoinpos.Service.Calls.{call_evm}
use pokoinpos.Evm.{Call}
use pokoinpos.Service.Static.{IsInner, AreInner, call_evm-unchanged}
use pokoinpos.Tests.Data.{funded}
use pokoinpos.Explorer.{ExplorerBlock, ExplorerIndex}
use pokoinpos.Service.Paging.{IsNumbered, all_down, read_blocks, read_blocks-all_down}
use pokoinpos.Tests.Network.{wire, node, settings, miner}
use pokoinpos.Tests.Peers.{fresh_peer, node_configured}
use pokoinpos.Tests.Pools.{gold_and_salt}
use pokoinpos.Tests.Services.{last_block}
use pokoinpos.Peer.Queries.{
  authorization, authorized_peers, balance_of, insert_row, row_before, sort_rows,
}
use pokoinpos.Text.Decimal.{digits_from, itoa}
use pokoinpos.Text.Hex.{big_int_value}
use pokoinpos.Crypto.{big_int_bytes, safe_encode}
use pokoinpos.Peer.Connect.{peer_id}
use pokoinpos.Evm.{evm_balance_from_string}
use pokoinpos.GoMap.{insert, lookup}
use pokoinpos.Peer.Addresses.{has_byte, join_host_port}
use pokoinpos.Base64.{encode}
use pokoinpos.Peer.Flood.{has_connection}
use pokoinpos.Peer.{new_peer}
use pokoinpos.Service.Pages.{validators}

abbrev gate : Gateway
gate = record {
  decode_raw = λ s. none;
  decode_batch = λ raw. none;
  decode_request = λ raw. none;
  decode_mint = λ s. some (record { to = txt "b"; amount = pos 5 });
  decode_withdraw = λ s. none;
  decode_nft_mint = λ s. none;
  decode_nft_transfer = λ s. none;
  decode_accounting = λ s. none;
  decode_pool = λ s. none;
  decode_liquidity = λ s. none;
  nft_json = λ nft. nft;
  amm_json = λ amm. amm;
  from_hex = λ s. s;
  hash_hex = λ s. s;
  create_address = λ from nonce. from;
  static_call = λ accounts from to input. record { calls = []; output = none };
}

abbrev ops : OpsServer
ops = record {
  admin_token = txt "secret";
  evm_chain_id = pos 31337;
  evm_network_id = txt "31337";
  bootstrap = none;
  reserved_supply_addresses = [];
}

abbrev moment : Moment
moment = record { unix_nano = pos 1; stamp = txt "now"; uptime_seconds = pos 2 }

abbrev request : Text → Text → Text → Request
request verb given token = record {
  method = verb;
  path = given;
  authorization = token;
  query = λ key. [];
  body = [];
}

abbrev get_mint : Request
get_mint = request (txt "GET") (txt "/admin/mint") (txt "Bearer secret")

abbrev get_list : Request
get_list = request (txt "GET") (txt "/admin/mempool") (txt "Bearer secret")

abbrev post_mint : Request
post_mint = request (txt "POST") (txt "/admin/mint") (txt "Bearer secret")

abbrev stranger_mint : Request
stranger_mint = request (txt "POST") (txt "/admin/mint") (txt "Bearer guess")

serve_all-Reached_example :
    After
      (λ r. Reached wire r.1)
      (serve_all wire gate ops moment (post_mint ∷ get_mint ∷ []) fresh_peer)
serve_all-Reached_example =
    serve_all-Reached wire gate ops moment (post_mint ∷ get_mint ∷ []) fresh_peer
      (configured node fresh_peer settings (some miner) node_configured)

serve-read_only_example :
    After
      (IsReadBy ops (route_of get_list.path) get_list node)
      (serve wire gate ops moment get_list node)
serve-read_only_example = serve-read_only wire gate ops moment get_list node (λ e. cc)

admin-refused_example :
    admin wire gate ops moment Action.minting stranger_mint node
    ≡ done (
      if allows wire gate ops moment Action.minting stranger_mint
          then failure 401 (txt "admin_auth_required")
          else method_not_allowed,
      node,
    )
admin-refused_example =
    admin-refused wire gate ops moment Action.minting stranger_mint node (inr (λ e. cc))

parse_hex_uint64-hex_quantity_example : parse_hex_uint64 (hex_quantity (pos 31337)) ≡ some 31337
parse_hex_uint64-hex_quantity_example = parse_hex_uint64-hex_quantity 31337 (omega arith)

abbrev gold_quote : AmmQuote
gold_quote = record {
  pool_id = txt "GOLD_SALT";
  asset_in = txt "GOLD";
  asset_out = txt "SALT";
  amount_in = pos 100;
  amount_out = pos 360;
  fee_bps = pos 30;
  reserve_in = pos 1000;
  reserve_out = pos 4000;
  price_numerator = pos 4000;
  price_denominator = pos 1000;
}

gold_quoted :
    quote_on (some gold_and_salt) (txt "gold") (pos 100)
    ≡ done (json 200 (any_amm_quote gold_quote))
unfolding apply_swap quote_reserves quote_swap reserves_for normalize_asset encode big_int_bytes
    safe_encode evm_balance_from_string pokoinpos.Evm.get_balance insert lookup
    pokoinpos.Ledger.get_balance has_byte join_host_port peer_id has_connection authorization
    authorized_peers balance_of insert_row row_before sort_rows new_peer add_int div_int mul_int
    quotient sub_int wrap ◌*ℤ◌ ◌+ℤ◌ ◌-ℤ◌ quote_of quote_on validators map_of slice digits_from itoa
    big_int_value text_eq text_ltb to_lower to_upper trim_space
gold_quoted = refl

abbrev first_byte : Text → ℕ
first_byte [] = 0
first_byte (c ∷ s) = c

gold_not_salt : ¬ (gold_and_salt.asset_a ≡ gold_and_salt.asset_b)
gold_not_salt e = let h = ap first_byte e in omega arith

gold_plain : normalize_asset (txt "gold") ≡ to_upper (txt "gold")
unfolding normalize_asset text_eq trim_space to_upper
gold_plain = refl

quote_on-reserves_example :
    (quote_swap gold_and_salt (txt "gold") (pos 100) ≡ done (some (pos 360)))
    × (◌≡◌ {A = ℤ × ℤ} (pos 1000, pos 4000) (reserves_for gold_and_salt (txt "gold")))
    × (leb_ℤ (pos 360) (pos 0) ≡ false)
    × (leb_ℤ (pos 4000) (pos 360) ≡ false)
quote_on-reserves_example =
    quote_on-reserves gold_and_salt (txt "gold") (pos 100) gold_quote gold_not_salt gold_plain
      gold_quoted

-- A run that creates an account, pays it, and takes the payment back.
abbrev busy_gate : Gateway
busy_gate = record gate {
  static_call = λ accounts from to input. record {
    calls =
        Call.create (txt "0xaa")
        ∷ Call.save
        ∷ Call.add_to (txt "0xaa") 5
        ∷ Call.revert (pos 1)
        ∷ [];
    output = some [];
  };
}

busy-AreInner : AreInner (busy_gate.static_call funded.evm_accounts [] [] []).calls
unfolding AreInner IsInner
busy-AreInner = (tt, (tt, (tt, (tt, tt))))

call_evm-unchanged_example : (call_evm busy_gate [] [] [] funded).1 ≡ funded
call_evm-unchanged_example = call_evm-unchanged busy_gate [] [] [] funded busy-AreInner

-- An index of two blocks.
abbrev two_listed : ExplorerIndex
two_listed = record {
  latest_height = 1;
  finalized_height = pos 0;
  blocks_by_number = record last_block { number = 0 } ∷ last_block ∷ [];
  blocks_by_hash = [];
  txs_by_hash = [];
  txs_by_address = [];
}

abbrev number_in : Option ExplorerBlock → ℕ
number_in none = 0
number_in (some b) = b.number

drop-nil : (n : ℕ) → ◌≡◌ {A = List ExplorerBlock} (drop n []) []
drop-nil zero = refl
drop-nil (suc n) = refl

two_listed-IsNumbered : IsNumbered two_listed
unfolding block_at
two_listed-IsNumbered zero b e = sym (ap number_in e)
two_listed-IsNumbered (suc zero) b e = sym (ap number_in e)
two_listed-IsNumbered (suc (suc n)) b e = let none_left = drop-nil n in ground arith

read_blocks-all_down_example : read_blocks 2 two_listed 1 1 ≡ all_down two_listed 1
read_blocks-all_down_example =
    read_blocks-all_down 2 two_listed 1 0 two_listed-IsNumbered (omega arith)
