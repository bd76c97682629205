-- ===== src/Peer/Addresses.antt =====
-- Who a peer is and whom it knows: peer ids, addresses, validators, connections and joins.
pub mod Sorted
use pokoinpos.Prelude.{
  ℕ, Bool, false, ◌&&◌, ◌||◌, not, Option, none, some, List, [], ◌∷◌, ◌++◌, map, if◌then◌else◌,
  ◌==◌,
}
use pokoinpos.Prelude.Int.{pos, leb_ℤ, ltb_ℤ}
use pokoinpos.Text.{Text, txt, text_eq, text_ltb, is_empty, trim_space}
use pokoinpos.GoMap.{Map, lookup, insert, delete}
use pokoinpos.Crypto.{safe_encode}
use pokoinpos.Peer.{Peer, PeerAddress}
use pokoinpos.Peer.Flood.{connection, has_connection}

-- Whether an address can be dialled, as the code tests it everywhere.
abbrev pub is_usable : PeerAddress → Bool
is_usable a = not (is_empty a.id) && not (is_empty a.host) && ltb_ℤ (pos 0) a.port

-- Whether a text has a byte.
unfoldable pub has_byte : ℕ → Text → Bool
has_byte c [] = false
has_byte c (b ∷ s) = (b == c) || has_byte c s

-- net.JoinHostPort: a host with a colon is put into brackets.
unfoldable pub join_host_port : Text → Text → Text
join_host_port host port =
    if has_byte 58 host then txt "[" ++ host ++ txt "]:" ++ port else host ++ txt ":" ++ port

-- The move of one entry of a map to the new id.
unfoldable pub rekey_entry {ℓ} : {V : Type ℓ} → Text → Text → Map V → Map V
rekey_entry old_id new_id m = elim (lookup old_id m) [
  | none ↦ m
  | some v ↦ insert new_id v (delete old_id m)
]

-- An address is moved with its own field too.
unfoldable pub rekey_address : Text → Text → Map PeerAddress → Map PeerAddress
rekey_address old_id new_id m = elim (lookup old_id m) [
  | none ↦ m
  | some a ↦ insert new_id (record a { id = new_id }) (delete old_id m)
]

unfoldable pub rekey : Text → Text → Peer → Peer
rekey old_id new_id p =
    if is_empty old_id || is_empty new_id || text_eq old_id new_id then p else record p {
      id = new_id;
      conns = rekey_entry old_id new_id p.conns;
      peer_validators = rekey_entry old_id new_id p.peer_validators;
      peer_addresses = rekey_address old_id new_id p.peer_addresses;
    }

unfoldable pub record_peer_address : PeerAddress → Peer → Peer
record_peer_address a p =
    if is_usable a then record p { peer_addresses = insert a.id a p.peer_addresses } else p

unfoldable pub record_peer_addresses : List PeerAddress → Peer → Peer
record_peer_addresses [] p = p
record_peer_addresses (a ∷ rest) p = record_peer_addresses rest (record_peer_address a p)

unfoldable pub record_peer_validator : Text → Text → Peer → Peer
record_peer_validator id given p =
    let validator = trim_space given in
    if is_empty id || is_empty validator
    then p
    else record p { peer_validators = insert id validator p.peer_validators }

-- The loop of uniquePeerAddresses that fills its map.
unfoldable pub see_addresses : List PeerAddress → Map PeerAddress → Map PeerAddress
see_addresses [] seen = seen
see_addresses (a ∷ rest) seen =
    see_addresses rest (if is_usable a then insert a.id a seen else seen)

-- sort.Slice by a text, as an insertion sort: the ids are distinct.
unfoldable pub insert_by {ℓ} : {A : Type ℓ} → (A → Text) → A → List A → List A
insert_by key a [] = a ∷ []
insert_by key a (b ∷ rest) =
    let below = insert_by key a rest in if text_ltb (key a) (key b) then a ∷ b ∷ rest else b ∷ below

unfoldable pub sort_by {ℓ} : {A : Type ℓ} → (A → Text) → List A → List A
sort_by key [] = []
sort_by key (a ∷ rest) = insert_by key a (sort_by key rest)

unfoldable pub unique_peer_addresses : List PeerAddress → List PeerAddress
unique_peer_addresses addresses = sort_by (λ a. a.id) (map (λ e. e.1) (see_addresses addresses []))

unfoldable pub find_peer_address : List PeerAddress → Text → Option PeerAddress
find_peer_address [] id = none
find_peer_address (a ∷ rest) id = if text_eq a.id id then some a else find_peer_address rest id

-- The loop over `payload.Peers` of addressesFromConnectPayload.
unfoldable pub add_known : Map PeerAddress → List Text → List PeerAddress → List PeerAddress
add_known known [] addresses = addresses
add_known known (peer ∷ rest) addresses =
    add_known known rest (elim (find_peer_address addresses peer) [
      | some a ↦ addresses
      | none ↦ elim (lookup peer known) [ none ↦ addresses | some a ↦ addresses ++ (a ∷ []) ]
    ])

-- The loop of addressFromConnectPayload.
unfoldable pub own_address : Text → List PeerAddress → Option PeerAddress
own_address id [] = none
own_address id (a ∷ rest) =
    if text_eq a.id id && not (is_empty a.host) && ltb_ℤ (pos 0) a.port
    then some a
    else own_address id rest

-- The addresses that the loops of connectPayload and knownPeerAddresses keep.
unfoldable pub usable_addresses : Map PeerAddress → List PeerAddress
usable_addresses [] = []
usable_addresses ((id, a) ∷ m) =
    let rest = usable_addresses m in if is_usable a then a ∷ rest else rest

unfoldable pub other_addresses : Text → List PeerAddress → List PeerAddress
other_addresses self [] = []
other_addresses self (a ∷ addresses) =
    let rest = other_addresses self addresses in if text_eq a.id self then rest else a ∷ rest

unfoldable pub known_peer_addresses : Peer → List PeerAddress
known_peer_addresses p = other_addresses p.id (usable_addresses p.peer_addresses)

unfoldable pub validator_account : Peer → Text
validator_account p = elim p.miner [ none ↦ [] | some a ↦ safe_encode a ]

-- ConnectAddress up to the dial: an address without a host or a port is an error.
unfoldable pub dial : PeerAddress → Peer → Peer
dial a p =
    if is_empty a.host || leb_ℤ a.port (pos 0)
    then p
    else record p { dialled = p.dialled ++ (a ∷ []) }

unfoldable pub join_known_peers : List PeerAddress → Peer → Peer
join_known_peers [] p = p
join_known_peers (a ∷ rest) p = join_known_peers rest (
    if is_empty a.id || text_eq a.id p.id || has_connection p a.id
    then p
    else dial a (record_peer_address a p))

-- The cleanup of handleDecode: the entry goes only if it still is this connection.
unfoldable pub drop_connection : Text → ℕ → Peer → Peer
drop_connection id conn p = if text_eq id p.id then p else elim (connection p id) [
  | none ↦ p
  | some current ↦ if current == conn then record p { conns = delete id p.conns } else p
]
