-- ===== src/Peer/Queries.antt =====
-- What a peer reports of its state and its committed ledger.
use pokoinpos.Prelude.{
  ℕ, ◌-◌, Bool, true, false, ◌&&◌, ◌||◌, not, Option, none, some, List, [], ◌∷◌, map, if◌then◌else◌,
  length, drop,
}
use pokoinpos.Prelude.Int.{ℤ, pos, pos_part, add_int, sub_int, leb_ℤ, ltb_ℤ, eqb_ℤ}
use pokoinpos.Text.{Text, text_eq, text_ltb, is_empty, trim_space, to_lower}
use pokoinpos.GoMap.{Map, at, insert}
use pokoinpos.Crypto.{safe_encode}
use pokoinpos.Ledger
use pokoinpos.Ledger.{
  Ledger, EvmAccount, EvmReceipt, get_nonce, is_validator, amm_pool, evm_receipt, nft_token,
  nfts_by_owner, tx_count,
}
use pokoinpos.Ledger.Copies.{copy_accounts}
use pokoinpos.Chain.Block.{Block}
use pokoinpos.Peer.{Peer}
use pokoinpos.Peer.Flood.{has_connection}

pub record PeerAuthorization : Type 0 where
  pub peer_id : Text
  pub validator : Text
  pub stake : ℤ
  pub authorized : Bool
  pub is_local : Bool
  pub connected : Bool

pub record MempoolTxSummary : Type 0 where
  pub id : Text
  pub kind : Text
  pub from : Text
  pub to : Text
  pub amount : ℤ
  pub nonce : ℕ
  pub chain_id : ℤ
  pub of_evm : Bool
  pub of_amm : Bool
  pub of_nft : Bool
  pub best_ledger_would_apply : Bool

pub record SupplySnapshot : Type 0 where
  pub total_supply : ℤ
  pub circulating_supply : ℤ
  pub reserved_supply : ℤ
  pub reserved_addresses : List Text

-- The row of AuthorizedPeers for one validator.
unfoldable pub authorization : Peer → Text × Text → PeerAuthorization
authorization p (peer_id, validator) = record {
  peer_id = peer_id;
  validator = validator;
  stake = Ledger.get_balance p.ledger validator;
  authorized = not (is_empty validator);
  is_local = text_eq peer_id p.id;
  connected = has_connection p peer_id && not (text_eq peer_id p.id);
}

-- The rows that are authorized come first; among equals the id decides.
unfoldable pub row_before : PeerAuthorization → PeerAuthorization → Bool
row_before a b =
    if a.authorized && not b.authorized
    then true
    else if b.authorized && not a.authorized
    then false
    else text_ltb a.peer_id b.peer_id

unfoldable pub insert_row : PeerAuthorization → List PeerAuthorization → List PeerAuthorization
insert_row a [] = a ∷ []
insert_row a (b ∷ rest) =
    let below = insert_row a rest in if row_before a b then a ∷ b ∷ rest else b ∷ below

unfoldable pub sort_rows : List PeerAuthorization → List PeerAuthorization
sort_rows [] = []
sort_rows (a ∷ rest) = insert_row a (sort_rows rest)

unfoldable pub authorized_peers : Peer → List PeerAuthorization
authorized_peers p =
    let validators : Map Text = elim p.miner [
      | none ↦ p.peer_validators
      | some a ↦ insert p.id (safe_encode a) p.peer_validators
    ] in
    sort_rows (map (authorization p) validators)

unfoldable pub active_rows : List PeerAuthorization → List PeerAuthorization
active_rows [] = []
active_rows (row ∷ rows) =
    let rest = active_rows rows in if row.is_local || row.connected then row ∷ rest else rest

unfoldable pub active_authorized_peers : Peer → List PeerAuthorization
active_authorized_peers p = active_rows (authorized_peers p)

-- The entry of the peer itself is not counted, on a peer that has connections.
unfoldable pub peer_count : Peer → ℕ
peer_count p = length p.conns - 1

unfoldable pub dynamic_hardness_fork_height : Peer → ℤ
dynamic_hardness_fork_height p = elim p.genesis [
  | none ↦ pos 0
  | some g ↦ g.dynamic_hardness_fork_height
]

unfoldable pub tx_history_count : Peer → ℕ
tx_history_count p = tx_count p.ledger

unfoldable pub balance_of : Peer → Text → ℤ
balance_of p account = Ledger.get_balance p.ledger account

unfoldable pub nonce_of : Peer → Text → ℕ
nonce_of p account = get_nonce p.ledger account

-- `reservedSet`
unfoldable pub reserved_set : List Text → Map Bool → Map Bool
reserved_set [] reserved = reserved
reserved_set (address ∷ rest) reserved =
    reserved_set rest (insert (to_lower (trim_space address)) true reserved)

-- The loop of SupplySnapshot: the total and the reserved part.
unfoldable pub tally_supply : Map Bool → Map ℤ → ℤ × ℤ → ℤ × ℤ
tally_supply reserved [] sums = sums
tally_supply reserved ((account, balance) ∷ m) (total, kept) = tally_supply reserved m (
    if leb_ℤ balance (pos 0) then (total, kept) else (
      add_int total balance,
      if at false (to_lower account) reserved then add_int kept balance else kept,
    ))

unfoldable pub supply_snapshot : Peer → List Text → SupplySnapshot
supply_snapshot p reserved_addresses =
    let (total, reserved) =
      tally_supply (reserved_set reserved_addresses []) (copy_accounts p.ledger) (pos 0, pos 0) in
    let circulating = sub_int total reserved in
    record {
      total_supply = total;
      circulating_supply = if ltb_ℤ circulating (pos 0) then pos 0 else circulating;
      reserved_supply = reserved;
      reserved_addresses = reserved_addresses;
    }

unfoldable pub is_ready : Peer → Bool
is_ready p = elim p.blockchain [
  | none ↦ false
  | some chain ↦ elim p.genesis [
    | none ↦ false
    | some g ↦ elim p.miner [ none ↦ false | some a ↦ true ]
  ]
]

-- The loop of BestAssetBalances.
unfoldable pub list_balances : Text → Map (Map ℤ) → Map ℤ → Map ℤ
list_balances account [] out = out
list_balances account ((asset, by_account) ∷ m) out =
    let value : ℤ = at (pos 0) account by_account in
    list_balances account m (if eqb_ℤ value (pos 0) then out else insert asset value out)

-- The block at a height, with the height.
unfoldable pub nth_block : ℤ → List Block → Option (Block × ℕ)
nth_block height blocks =
    if ltb_ℤ height (pos 0)
    then none
    else elim (drop (pos_part height) blocks) [ [] ↦ none | b ∷ rest ↦ some (b, pos_part height) ]
