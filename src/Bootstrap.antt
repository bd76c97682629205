-- ===== src/Bootstrap.antt =====
-- peer/bootstrap_manifest.go: the bootstrap peers that a manifest names. Fetching it over HTTP is not
-- modelled: its outcome is an argument. The ratios, which the code only carries, are texts here.
use pokoinpos.Prelude.{
  Bool, ◌||◌, ◌&&◌, not, Option, none, some, List, [], ◌∷◌, ◌++◌, map, if◌then◌else◌,
}
use pokoinpos.Prelude.Int.{ℤ, pos, leb_ℤ, ltb_ℤ, eqb_ℤ}
use pokoinpos.Text.{Text, txt, text_eq, is_empty, trim_space, to_lower}
use pokoinpos.Text.Decimal.{itoa}
use pokoinpos.GoMap.{Map, insert}
use pokoinpos.Peer.{PeerAddress, Wire}
use pokoinpos.Peer.Connect.{peer_id}

pub record BootstrapPeerStatus : Type 0 where
  pub id : Text
  pub label : Text
  pub host : Text
  pub port : ℤ
  pub version : Text
  pub status : Text
  pub age_days : ℤ
  pub external_observers : ℤ
  pub grandfathered : Bool
  pub vetting_uptime : Text
  pub uptime_ratio_365d : Text

pub record BootstrapPolicy : Type 0 where
  pub vetting_days : ℤ
  pub vetting_minimum_uptime : Text
  pub bootstrap_maturity_days : ℤ
  pub eligibility_window_days : ℤ
  pub minimum_uptime_ratio : Text
  pub minimum_external_observers : ℤ

pub record BootstrapNetwork : Type 0 where
  pub name : Text
  pub bootstrap_manifest_url : Text
  pub bootstrap_refresh_interval_hours : ℤ

pub record BootstrapEvm : Type 0 where
  pub chain_id : ℤ
  pub network_id : Text

pub record BootstrapJoinTarget : Type 0 where
  pub host : Text
  pub port : ℤ

pub record BootstrapDefaults : Type 0 where
  pub fallback_peers : List Text
  pub default_join_peer : BootstrapJoinTarget

pub record BootstrapManifest : Type 0 where
  pub schema_version : ℤ
  pub generated_at : Text
  pub valid_for_hours : ℤ
  pub network : BootstrapNetwork
  pub evm : BootstrapEvm
  pub bootstrap : BootstrapDefaults
  pub policy : BootstrapPolicy
  pub peers : List BootstrapPeerStatus
  pub candidates : List BootstrapPeerStatus
  pub fallback_peers : List Text

pub record BootstrapRegistryStatus : Type 0 where
  pub manifest_url : Text
  pub last_refresh_at : Text
  pub last_error : Text
  pub network : BootstrapNetwork
  pub evm : BootstrapEvm
  pub bootstrap : BootstrapDefaults
  pub policy : BootstrapPolicy
  pub peers : List BootstrapPeerStatus
  pub candidates : List BootstrapPeerStatus
  pub fallback_peers : List Text

pub record BootstrapRegistry : Type 0 where
  pub url : Text
  pub refresh_hours : ℤ
  pub status : BootstrapRegistryStatus

abbrev no_network : BootstrapNetwork
no_network = record {
  name = [];
  bootstrap_manifest_url = [];
  bootstrap_refresh_interval_hours = pos 0;
}

abbrev no_defaults : BootstrapDefaults
no_defaults = record { fallback_peers = []; default_join_peer = record { host = []; port = pos 0 } }

abbrev no_policy : BootstrapPolicy
no_policy = record {
  vetting_days = pos 0;
  vetting_minimum_uptime = txt "0";
  bootstrap_maturity_days = pos 0;
  eligibility_window_days = pos 0;
  minimum_uptime_ratio = txt "0";
  minimum_external_observers = pos 0;
}

abbrev pub no_manifest : BootstrapManifest
no_manifest = record {
  schema_version = pos 0;
  generated_at = [];
  valid_for_hours = pos 0;
  network = no_network;
  evm = record { chain_id = pos 0; network_id = [] };
  bootstrap = no_defaults;
  policy = no_policy;
  peers = [];
  candidates = [];
  fallback_peers = [];
}

-- Whether an address has a host and a port.
abbrev pub is_reachable : Text → ℤ → Bool
is_reachable host port = not (is_empty host) && ltb_ℤ (pos 0) port

-- `address.Host + ":" + strconv.Itoa(address.Port)`
abbrev pub host_port : Text → ℤ → Text
host_port host port = host ++ txt ":" ++ itoa port

unfoldable pub peer_address_strings : List PeerAddress → List Text
peer_address_strings [] = []
peer_address_strings (a ∷ rest) =
    let below = peer_address_strings rest in
    if is_reachable a.host a.port then host_port a.host a.port ∷ below else below

unfoldable pub new_bootstrap_registry : Text → ℤ → List PeerAddress → BootstrapRegistry
new_bootstrap_registry url given fallback = record {
  url = url;
  refresh_hours = if leb_ℤ given (pos 0) then pos 24 else given;
  status = record {
    manifest_url = url;
    last_refresh_at = [];
    last_error = [];
    network = no_network;
    evm = record { chain_id = pos 0; network_id = [] };
    bootstrap = no_defaults;
    policy = no_policy;
    peers = [];
    candidates = [];
    fallback_peers = peer_address_strings fallback;
  };
}

unfoldable pub manifest_fallback_peers : BootstrapManifest → List Text
manifest_fallback_peers m = elim m.bootstrap.fallback_peers [
  | [] ↦ m.fallback_peers
  | peer ∷ rest ↦ peer ∷ rest
]

-- How a request for the manifest ended: with an error's text, or with what was decoded.
pub data Fetched : Type 0 where
  failed : Text → Fetched
  fetched : BootstrapManifest → Fetched

-- fetch, on how the request ended. `none` is an error; a registry without a URL asks nothing.
unfoldable pub fetch :
    Fetched → BootstrapRegistry → (Text × BootstrapRegistry) × Option (List BootstrapPeerStatus)
fetch (Fetched.failed err) r = if is_empty r.url then (([], r), some []) else ((err, r), none)
fetch (Fetched.fetched m) r = if is_empty r.url then (([], r), some []) else (
  (
    [],
    record r {
      status = record r.status {
        network = m.network;
        evm = m.evm;
        bootstrap = m.bootstrap;
        policy = m.policy;
        candidates = m.candidates;
        fallback_peers = manifest_fallback_peers m;
      };
    },
  ),
  some m.peers,
)

unfoldable pub filter_self_bootstrap_peers : List PeerAddress → Text → ℤ → List PeerAddress
filter_self_bootstrap_peers [] advertise_host listen_port = []
filter_self_bootstrap_peers (a ∷ rest) advertise_host listen_port =
    let host = to_lower (trim_space a.host) in
    let self = to_lower (trim_space advertise_host) in
    let below = filter_self_bootstrap_peers rest advertise_host listen_port in
    if eqb_ℤ a.port listen_port
      && (text_eq host self || text_eq host (txt "127.0.0.1") || text_eq host (txt "localhost"))
    then below
    else a ∷ below

module _ (w : Wire) where
  unfoldable pub bootstrap_statuses_to_addresses : List BootstrapPeerStatus → List PeerAddress
  bootstrap_statuses_to_addresses [] = []
  bootstrap_statuses_to_addresses (s ∷ rest) =
      let below = bootstrap_statuses_to_addresses rest in
      if is_reachable s.host s.port
      then record { id = peer_id w s.host s.port; host = s.host; port = s.port } ∷ below
      else below

  -- The method Peers, at a time given as text: the addresses, and the registry with its new status.
  unfoldable pub refresh_peers :
      Fetched → Text → BootstrapRegistry → List PeerAddress × BootstrapRegistry
  refresh_peers outcome now r =
      let ((err, next), peers) = fetch outcome r in
      elim peers [
        | none ↦ ([], record next { status = record next.status { last_error = err } })
        | some statuses ↦ (
          bootstrap_statuses_to_addresses statuses,
          record next {
            status = record next.status {
              last_error = [];
              last_refresh_at = now;
              peers = statuses;
            };
          },
        )
      ]

  unfoldable pub cached_peers : BootstrapRegistry → List PeerAddress
  cached_peers r = bootstrap_statuses_to_addresses r.status.peers

  -- The two loops of mergeBootstrapPeers. The groups are one after the other.
  unfoldable pub see_bootstrap_peers : List PeerAddress → Map PeerAddress → Map PeerAddress
  see_bootstrap_peers [] seen = seen
  see_bootstrap_peers (a ∷ rest) seen = see_bootstrap_peers rest (
      if is_reachable a.host a.port
      then insert (host_port a.host a.port) (record a { id = peer_id w a.host a.port }) seen
      else seen)

  unfoldable pub merge_groups : List (List PeerAddress) → Map PeerAddress → Map PeerAddress
  merge_groups [] seen = seen
  merge_groups (group ∷ rest) seen = merge_groups rest (see_bootstrap_peers group seen)

  unfoldable pub merge_bootstrap_peers : List (List PeerAddress) → List PeerAddress
  merge_bootstrap_peers groups = map (λ e. e.1) (merge_groups groups [])
