-- ===== src/Config.antt =====
-- peer/runtime_config.go: the settings of a node, from the environment and the defaults that the
-- bootstrap manifest gives. `Env` has os.Getenv, the two functions of strconv, and what
-- FetchBootstrapManifestDefaults returns, none for an error, as parameters.
pub mod Checked
use pokoinpos.Prelude.{
  ℕ, Bool, true, false, ◌||◌, ◌&&◌, not, Option, none, some, List, [], ◌∷◌, ◌++◌, map,
  if◌then◌else◌, ◌==◌, reverse, length,
}
use pokoinpos.Prelude.Int.{ℤ, pos, negsuc, leb_ℤ, ltb_ℤ}
use pokoinpos.Text.{Text, txt, is_empty, trim_space, to_lower, has_prefix, split_byte}
use pokoinpos.Text.Decimal.{itoa}
use pokoinpos.GoMap.{Map, insert}
use pokoinpos.Peer.{PeerAddress}
use pokoinpos.Peer.Addresses.{has_byte}
use pokoinpos.Bootstrap.{BootstrapManifest, no_manifest, manifest_fallback_peers}

pub record NodeConfig : Type 0 where
  pub run_mode : Text
  pub listen_port : ℤ
  pub advertise_host : Text
  pub join_host : Text
  pub join_port : ℤ
  pub bootstrap_peers : List PeerAddress
  pub bootstrap_manifest_url : Text
  pub bootstrap_refresh_hours : ℤ
  pub ops_addr : Text
  pub admin_token : Text
  pub reward_payout_address : Text
  pub reserved_supply_addresses : List Text
  pub slot_seconds : ℤ
  pub idle_slot_interval : ℤ
  pub base_mine_attempts_per_tick : ℤ
  pub max_mine_attempts_per_tick : ℤ
  pub mine_attempts_per_pending_tx : ℤ
  pub dynamic_hardness_fork_height : ℤ
  pub dynamic_hardness_min : ℤ
  pub dynamic_hardness_max : ℤ
  pub dynamic_hardness_window : ℤ
  pub fast_block_target_slots : ℤ
  pub idle_block_target_slots : ℤ
  pub genesis_hardness : ℤ
  pub genesis_seed : ℤ
  pub initial_balance : ℤ
  pub state_dir : Text
  pub state_save_interval_seconds : ℤ
  pub reconnect_interval_seconds : ℤ
  pub finality_depth : ℤ
  pub evm_chain_id : ℤ
  pub evm_network_id : Text
  pub evm_genesis_alloc : Map ℤ

pub record Env : Type 0 where
  pub getenv : Text → Text
  pub atoi : Text → Option ℤ
  pub parse_int : Text → Option ℤ
  pub fetch_defaults : Text → Option BootstrapManifest

-- `strings.SplitN(s, ":", 2)`, where it yields two parts; `front` is what is before s, reversed.
unfoldable pub cut_colon : Text → Text → Option (Text × Text)
cut_colon front [] = none
cut_colon front (c ∷ s) = if c == 58 then some (reverse front, s) else cut_colon (c ∷ front) s

-- `strings.Trim(host, "[]")`
unfoldable pub trim_left_brackets : Text → Text
trim_left_brackets [] = []
trim_left_brackets (c ∷ s) = if (c == 91) || (c == 93) then trim_left_brackets s else c ∷ s

unfoldable pub trim_brackets : Text → Text
trim_brackets s = reverse (trim_left_brackets (reverse (trim_left_brackets s)))

-- The parts but the last joined with colons, and the last part: the text is cut at its last colon.
unfoldable pub split_host_port_lenient : Text → Option (Text × Text)
split_host_port_lenient value = elim (cut_colon [] (reverse value)) [
  | none ↦ none
  | some (port_reversed, host_reversed) ↦
      let host = trim_brackets (reverse host_reversed) in
      let port = reverse port_reversed in
      if is_empty (trim_space host) || is_empty (trim_space port)
      then none
      else some (trim_space host, trim_space port)
]

-- Values that are not empty, trimmed and in lower case.
unfoldable pub csv_values : List Text → List Text
csv_values [] = []
csv_values (item ∷ rest) =
    let value = to_lower (trim_space item) in
    let values = csv_values rest in if is_empty value then values else value ∷ values

module _ (env : Env) where
  unfoldable pub env_or_default : Text → Text → Text
  env_or_default key fallback =
      let value = trim_space (env.getenv key) in if is_empty value then fallback else value

  unfoldable pub env_csv_or_default : Text → List Text → List Text
  env_csv_or_default key fallback =
      let raw = trim_space (env.getenv key) in
      if is_empty raw
      then fallback
      else elim (csv_values (split_byte raw 44)) [ [] ↦ fallback | v ∷ rest ↦ v ∷ rest ]

  unfoldable pub env_int_or_default : Text → ℤ → ℤ
  env_int_or_default key fallback =
      let raw = trim_space (env.getenv key) in
      if is_empty raw
      then fallback
      else elim (env.atoi raw) [ none ↦ fallback | some value ↦ value ]

  unfoldable pub env_int64_or_default : Text → ℤ → ℤ
  env_int64_or_default key fallback =
      let raw = trim_space (env.getenv key) in
      if is_empty raw
      then fallback
      else elim (env.parse_int raw) [ none ↦ fallback | some value ↦ value ]

  -- One entry of an allocation.
  unfoldable pub add_allocation : Text → Map ℤ → Map ℤ
  add_allocation entry alloc = elim (cut_colon [] (trim_space entry)) [
    | none ↦ alloc
    | some (name, amount_text) ↦
        let address = to_lower (trim_space name) in
        elim (env.atoi (trim_space amount_text)) [
          | none ↦ alloc
          | some amount ↦
              if is_empty address || ltb_ℤ amount (pos 0)
              then alloc
              else insert address amount alloc
        ]
  ]

  unfoldable pub add_allocations : List Text → Map ℤ → Map ℤ
  add_allocations [] alloc = alloc
  add_allocations (entry ∷ rest) alloc = add_allocations rest (add_allocation entry alloc)

  unfoldable pub env_alloc_or_default : Text → Map ℤ → Map ℤ
  env_alloc_or_default key fallback =
      let raw = trim_space (env.getenv key) in
      if is_empty raw then fallback else add_allocations (split_byte raw 44) []

  -- One entry of a list of peers: empty and malformed ones are left out.
  unfoldable pub bootstrap_peer : Text → Option PeerAddress
  bootstrap_peer entry = elim (split_host_port_lenient (trim_space entry)) [
    | none ↦ none
    | some (host, port_text) ↦ elim (env.atoi port_text) [
      | none ↦ none
      | some port ↦
          if leb_ℤ port (pos 0)
          then none
          else some (record { id = itoa port; host = host; port = port })
    ]
  ]

  unfoldable pub bootstrap_peers_of : List Text → List PeerAddress
  bootstrap_peers_of [] = []
  bootstrap_peers_of (entry ∷ rest) =
      let peers = bootstrap_peers_of rest in
      elim (bootstrap_peer entry) [ none ↦ peers | some a ↦ a ∷ peers ]

  unfoldable pub parse_bootstrap_peers : Text → List PeerAddress
  parse_bootstrap_peers raw =
      if is_empty (trim_space raw) then [] else bootstrap_peers_of (split_byte raw 44)

  -- The node to join, as the only peer.
  unfoldable pub join_peer : Text → ℤ → List PeerAddress
  join_peer join_host join_port =
      if ltb_ℤ (pos 0) join_port && not (is_empty (trim_space join_host))
      then record { id = itoa join_port; host = trim_space join_host; port = join_port } ∷ []
      else []

  -- envBootstrapPeersOrDefaultWithFallback
  unfoldable pub env_bootstrap_peers : Text → Text → ℤ → List PeerAddress → List PeerAddress
  env_bootstrap_peers key join_host join_port fallback =
      elim (parse_bootstrap_peers (trim_space (env.getenv key))) [
        | a ∷ rest ↦ a ∷ rest
        | [] ↦ elim fallback [ b ∷ more ↦ b ∷ more | [] ↦ join_peer join_host join_port ]
      ]

  -- The manifest that the defaults are taken from: none is fetched where no URL is set, and an error
  -- leaves it empty.
  unfoldable pub default_manifest : Text → BootstrapManifest
  default_manifest manifest_url =
      if is_empty (trim_space (env.getenv (txt "POKOINPOS_BOOTSTRAP_MANIFEST_URL")))
      then no_manifest
      else elim (env.fetch_defaults manifest_url) [ none ↦ no_manifest | some m ↦ m ]

  -- The host and the port of the node to join that a manifest gives.
  unfoldable pub default_join : BootstrapManifest → Text × ℤ
  default_join m =
      let peer = m.bootstrap.default_join_peer in
      if not (is_empty peer.host) && ltb_ℤ (pos 0) peer.port
      then (peer.host, peer.port)
      else (txt "127.0.0.1", negsuc 0)

  unfoldable pub positive_or : ℤ → ℤ → ℤ
  positive_or fallback n = if leb_ℤ n (pos 0) then fallback else n

  unfoldable pub default_network_id : BootstrapManifest → Text
  default_network_id m =
      let id = trim_space m.evm.network_id in if is_empty id then txt "26062026" else id

  -- The texts of a list with commas between them.
  unfoldable pub join_commas : List Text → Text
  join_commas [] = []
  join_commas (s ∷ rest) = elim rest [ [] ↦ s | t ∷ more ↦ s ++ txt "," ++ join_commas rest ]

  -- The settings that LoadNodeConfigFromEnv reads, before it checks them.
  unfoldable pub config_from_env : Text → BootstrapManifest → NodeConfig
  config_from_env manifest_url m =
      let (default_host, default_port) = default_join m in
      let join_host = env_or_default (txt "POKOINPOS_JOIN_HOST") default_host in
      let join_port = env_int_or_default (txt "POKOINPOS_JOIN_PORT") default_port in
      let default_peers = parse_bootstrap_peers (join_commas (manifest_fallback_peers m)) in
      record {
        run_mode = env_or_default (txt "POKOINPOS_RUN_MODE") (txt "demo");
        listen_port = env_int_or_default (txt "POKOINPOS_LISTEN_PORT") (pos 43000);
        advertise_host = env_or_default (txt "POKOINPOS_ADVERTISE_HOST") join_host;
        join_host = join_host;
        join_port = join_port;
        bootstrap_peers =
            env_bootstrap_peers (txt "POKOINPOS_BOOTSTRAP_PEERS") join_host join_port default_peers;
        bootstrap_manifest_url = manifest_url;
        bootstrap_refresh_hours =
            env_int_or_default (txt "POKOINPOS_BOOTSTRAP_REFRESH_INTERVAL_HOURS")
              (positive_or (pos 24) m.network.bootstrap_refresh_interval_hours);
        ops_addr = env_or_default (txt "POKOINPOS_OPS_ADDR") (txt ":8080");
        admin_token =
            env_or_default (txt "POKOINPOS_OPERATOR_TOKEN")
              (env_or_default (txt "POKOINPOS_ADMIN_TOKEN") []);
        reward_payout_address =
            to_lower (env_or_default (txt "POKOINPOS_REWARD_PAYOUT_ADDRESS") []);
        reserved_supply_addresses =
            env_csv_or_default (txt "POKOINPOS_RESERVED_SUPPLY_ADDRESSES")
              (txt "0x74466c3a204429b22ce8558f3f18f3c59f67fcb3" ∷ []);
        slot_seconds = env_int_or_default (txt "POKOINPOS_SLOT_SECONDS") (pos 1);
        idle_slot_interval = env_int_or_default (txt "POKOINPOS_IDLE_SLOT_INTERVAL") (pos 300);
        base_mine_attempts_per_tick =
            env_int_or_default (txt "POKOINPOS_BASE_MINE_ATTEMPTS_PER_TICK") (pos 1);
        max_mine_attempts_per_tick =
            env_int_or_default (txt "POKOINPOS_MAX_MINE_ATTEMPTS_PER_TICK")
              (env_int_or_default (txt "POKOINPOS_MINE_ATTEMPTS_PER_TICK") (pos 5));
        mine_attempts_per_pending_tx =
            env_int_or_default (txt "POKOINPOS_MINE_ATTEMPTS_PER_PENDING_TX") (pos 1);
        dynamic_hardness_fork_height =
            env_int_or_default (txt "POKOINPOS_DYNAMIC_HARDNESS_FORK_HEIGHT") (pos 0);
        dynamic_hardness_min = env_int_or_default (txt "POKOINPOS_DYNAMIC_HARDNESS_MIN") (pos 100);
        dynamic_hardness_max =
            env_int_or_default (txt "POKOINPOS_DYNAMIC_HARDNESS_MAX") (pos 10000000);
        dynamic_hardness_window =
            env_int_or_default (txt "POKOINPOS_DYNAMIC_HARDNESS_WINDOW") (pos 32);
        fast_block_target_slots =
            env_int_or_default (txt "POKOINPOS_FAST_BLOCK_TARGET_SLOTS") (pos 2);
        idle_block_target_slots =
            env_int_or_default (txt "POKOINPOS_IDLE_BLOCK_TARGET_SLOTS") (pos 20);
        genesis_hardness = env_int_or_default (txt "POKOINPOS_GENESIS_HARDNESS") (pos 10000);
        genesis_seed = env_int_or_default (txt "POKOINPOS_GENESIS_SEED") (pos 42);
        initial_balance = env_int_or_default (txt "POKOINPOS_INITIAL_BALANCE") (pos 1000000);
        state_dir = env_or_default (txt "POKOINPOS_STATE_DIR") (txt "/data");
        state_save_interval_seconds =
            env_int_or_default (txt "POKOINPOS_STATE_SAVE_INTERVAL_SECONDS") (pos 15);
        reconnect_interval_seconds =
            env_int_or_default (txt "POKOINPOS_RECONNECT_INTERVAL_SECONDS") (pos 5);
        finality_depth = env_int_or_default (txt "POKOINPOS_FINALITY_DEPTH") (pos 1);
        evm_chain_id =
            env_int64_or_default (txt "POKOINPOS_EVM_CHAIN_ID")
              (positive_or (pos 26062026) m.evm.chain_id);
        evm_network_id = env_or_default (txt "POKOINPOS_EVM_NETWORK_ID") (default_network_id m);
        evm_genesis_alloc = env_alloc_or_default (txt "POKOINPOS_EVM_GENESIS_ALLOC") [];
      }

-- The tests of LoadNodeConfigFromEnv in turn, each with its error.
unfoldable pub config_checks : NodeConfig → List (Bool × Text)
config_checks cfg =
    (leb_ℤ cfg.listen_port (pos 0), txt "POKOINPOS_LISTEN_PORT must be > 0")
    ∷ (is_empty (trim_space cfg.advertise_host), txt "POKOINPOS_ADVERTISE_HOST must not be empty")
    ∷ (leb_ℤ cfg.slot_seconds (pos 0), txt "POKOINPOS_SLOT_SECONDS must be > 0")
    ∷ (ltb_ℤ cfg.idle_slot_interval (pos 0), txt "POKOINPOS_IDLE_SLOT_INTERVAL must be >= 0")
    ∷ (
      leb_ℤ cfg.base_mine_attempts_per_tick (pos 0),
      txt "POKOINPOS_BASE_MINE_ATTEMPTS_PER_TICK must be > 0",
    )
    ∷ (
      leb_ℤ cfg.max_mine_attempts_per_tick (pos 0),
      txt "POKOINPOS_MAX_MINE_ATTEMPTS_PER_TICK must be > 0",
    )
    ∷ (
      ltb_ℤ cfg.mine_attempts_per_pending_tx (pos 0),
      txt "POKOINPOS_MINE_ATTEMPTS_PER_PENDING_TX must be >= 0",
    )
    ∷ (
      ltb_ℤ cfg.dynamic_hardness_fork_height (pos 0),
      txt "POKOINPOS_DYNAMIC_HARDNESS_FORK_HEIGHT must be >= 0",
    )
    ∷ (leb_ℤ cfg.dynamic_hardness_min (pos 0), txt "POKOINPOS_DYNAMIC_HARDNESS_MIN must be > 0")
    ∷ (
      ltb_ℤ cfg.dynamic_hardness_max cfg.dynamic_hardness_min,
      txt "POKOINPOS_DYNAMIC_HARDNESS_MAX must be >= POKOINPOS_DYNAMIC_HARDNESS_MIN",
    )
    ∷ (
      leb_ℤ cfg.dynamic_hardness_window (pos 0),
      txt "POKOINPOS_DYNAMIC_HARDNESS_WINDOW must be > 0",
    )
    ∷ (
      leb_ℤ cfg.fast_block_target_slots (pos 0),
      txt "POKOINPOS_FAST_BLOCK_TARGET_SLOTS must be > 0",
    )
    ∷ (
      leb_ℤ cfg.idle_block_target_slots (pos 0),
      txt "POKOINPOS_IDLE_BLOCK_TARGET_SLOTS must be > 0",
    )
    ∷ (
      not (has_prefix cfg.ops_addr (txt ":")) && not (has_byte 58 cfg.ops_addr),
      txt "POKOINPOS_OPS_ADDR must be host:port or :port",
    )
    ∷ (
      not (is_empty cfg.reward_payout_address)
          && (not (has_prefix cfg.reward_payout_address (txt "0x"))
              || not (length cfg.reward_payout_address == 42)),
      txt "POKOINPOS_REWARD_PAYOUT_ADDRESS must be an EVM 0x address",
    )
    ∷ (
      leb_ℤ cfg.state_save_interval_seconds (pos 0),
      txt "POKOINPOS_STATE_SAVE_INTERVAL_SECONDS must be > 0",
    )
    ∷ (
      leb_ℤ cfg.reconnect_interval_seconds (pos 0),
      txt "POKOINPOS_RECONNECT_INTERVAL_SECONDS must be > 0",
    )
    ∷ (
      leb_ℤ cfg.bootstrap_refresh_hours (pos 0),
      txt "POKOINPOS_BOOTSTRAP_REFRESH_INTERVAL_HOURS must be > 0",
    )
    ∷ (ltb_ℤ cfg.finality_depth (pos 0), txt "POKOINPOS_FINALITY_DEPTH must be >= 0")
    ∷ (leb_ℤ cfg.evm_chain_id (pos 0), txt "POKOINPOS_EVM_CHAIN_ID must be > 0")
    ∷ (is_empty (trim_space cfg.evm_network_id), txt "POKOINPOS_EVM_NETWORK_ID must not be empty")
    ∷ []

-- The error of the first test that holds.
unfoldable pub first_error : List (Bool × Text) → Option Text
first_error [] = none
first_error ((wrong, message) ∷ rest) = if wrong then some message else first_error rest

-- The settings, and the error where one is wrong.
unfoldable pub load_node_config_from_env : Env → NodeConfig × Option Text
load_node_config_from_env env =
    let manifest_url =
      env_or_default env (txt "POKOINPOS_BOOTSTRAP_MANIFEST_URL")
        (txt "https://pokoin.com/bootstrap-peers.json") in
    let cfg = config_from_env env manifest_url (default_manifest env manifest_url) in
    (cfg, first_error (config_checks cfg))
