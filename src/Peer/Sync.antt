-- ===== src/Peer/Sync.antt =====
-- Chain sync: what a peer asks for, serves, and installs of another peer's chain.
pub mod Install
use pokoinpos.Prelude.{
  ℕ, ◌+◌, Bool, true, false, ◌&&◌, ◌||◌, not, Option, none, some, List, [], ◌∷◌, ◌++◌,
  if◌then◌else◌, length, take, drop, leb, ◌==◌,
}
use pokoinpos.Prelude.Int.{ℤ, pos, pos_part, add_int, leb_ℤ, ltb_ℤ, eqb_ℤ}
use pokoinpos.Prelude.Run.{Run, done, ◌>>=◌}
use pokoinpos.Text.{Text, txt, text_eq, is_empty}
use pokoinpos.Text.Decimal.{itoa}
use pokoinpos.GoMap.{Map, lookup, insert}
use pokoinpos.Base64
use pokoinpos.Ledger.{tx_count}
use pokoinpos.Chain.Block.{Block, hash_text, decode_genesis_from_meta}
use pokoinpos.Chain.Tree.{canonical_blocks, best_height, replace_blocks}
use pokoinpos.Chain.State.{ledger_from_blockchain}
use pokoinpos.Peer.{Message, Peer, Wire, ChainSyncRequest, ChainSyncResponse, ChainStatusSummary}
use pokoinpos.Peer.Flood.{send}

abbrev pub no_status : ChainStatusSummary
no_status = record { genesis_hash = []; height = pos 0; best_hash = [] }

-- The last of the blocks that follow a first one.
unfoldable pub last_of : Block → List Block → Block
last_of b [] = b
last_of b (c ∷ rest) = last_of c rest

-- Whether a reply asks for blocks within the chain: the two tests on FromHeight.
unfoldable pub served_from : ℤ → ℕ → ℕ
served_from from_height count =
    if ltb_ℤ from_height (pos 0)
    then 0
    else if ltb_ℤ (pos count) from_height
    then count
    else pos_part from_height

module _ (w : Wire) where
  -- blockHashString is the text that the maps of the tree use.
  abbrev pub block_hash_string : Block → Text
  block_hash_string b = hash_text w.platform b

  unfoldable pub genesis_content_hash : Block → Text
  genesis_content_hash b = Base64.encode (w.platform.sha256 b.meta_data)

  unfoldable pub status_of : List Block → ChainStatusSummary
  status_of [] = no_status
  status_of (b ∷ rest) = record {
    genesis_hash = genesis_content_hash b;
    height = pos (length rest);
    best_hash = block_hash_string (last_of b rest);
  }

  unfoldable pub chain_status : Peer → Run ChainStatusSummary
  chain_status p = elim p.blockchain [
    | none ↦ done no_status
    | some chain ↦ do blocks ← canonical_blocks w.platform chain (pos 0); done (status_of blocks)
  ]

  unfoldable pub chain_height : Peer → Run ℕ
  chain_height p = elim p.blockchain [ none ↦ done 0 | some chain ↦ best_height w.platform chain ]

  -- The clock is read for the id of the message.
  unfoldable pub request_chain_sync : ℤ → Text → ChainSyncRequest → Peer → Peer
  request_chain_sync now peer req p =
      (send peer
        (record {
          msg_type = txt "ChainSyncRequest";
          msg_id = txt "sync-req-" ++ p.id ++ txt "-" ++ itoa now;
          from = p.id;
          payload = w.marshal_request req;
        })
        p).1

  -- The loop of RequestChainSyncFromPeers.
  unfoldable pub request_from : ℤ → Map (Option ℕ) → ChainSyncRequest → Peer → Peer
  request_from now [] req p = p
  request_from now ((peer, conn) ∷ rest) req p = request_from now rest req (
      if text_eq peer p.id
      then p
      else elim conn [ none ↦ p | some c ↦ request_chain_sync now peer req p ])

  unfoldable pub request_chain_sync_from_peers : ℤ → Peer → Run Peer
  request_chain_sync_from_peers now p = do
    local ← chain_status p
    done (
        if is_empty local.genesis_hash
        then p
        else request_from now p.conns
            (record {
              genesis_hash = local.genesis_hash;
              from_height = add_int local.height (pos 1);
            })
            p)

  unfoldable pub can_adopt_remote_genesis : Peer → Run Bool
  can_adopt_remote_genesis p = elim p.blockchain [
    | none ↦ done false
    | some chain ↦ do
      height ← best_height w.platform chain
      done ((height == 0) && (tx_count p.ledger == 0) && (p.accepted_blocks == 0))
  ]

  -- maybeRequestChainSync, from the summary of the other peer.
  unfoldable pub maybe_request_chain_sync : ℤ → Text → Text → Peer → Run Peer
  maybe_request_chain_sync now peer raw p = elim (w.unmarshal_connect raw) [
    | none ↦ done p
    | some remote ↦ do
      local ← chain_status p
      adopt ← can_adopt_remote_genesis p
      let same = text_eq remote.genesis_hash local.genesis_hash
      done (
          if is_empty remote.genesis_hash || is_empty local.genesis_hash
          then p
          else if not same && not adopt
          then p
          else if leb_ℤ remote.height local.height
          then p
          else request_chain_sync now peer
              (record {
                genesis_hash = remote.genesis_hash;
                from_height = if not same && adopt then pos 0 else add_int local.height (pos 1);
              })
              p)
  ]

  unfoldable pub response_to : ChainStatusSummary → List Block → ℤ → ChainSyncResponse
  response_to local blocks from_height = record {
    genesis_hash = local.genesis_hash;
    height = local.height;
    blocks = drop (served_from from_height (length blocks)) blocks;
  }

  unfoldable pub handle_chain_sync_request : ℤ → Text → Message → Peer → Run Peer
  handle_chain_sync_request now from msg p = elim p.blockchain [
    | none ↦ done p
    | some chain ↦ elim (w.unmarshal_request msg.payload) [
      | none ↦ done p
      | some req ↦ do
        local ← chain_status p
        blocks ← canonical_blocks w.platform chain (pos 0)
        done (
            if is_empty req.genesis_hash || not (text_eq req.genesis_hash local.genesis_hash)
            then p
            else (send from
                (record {
                  msg_type = txt "ChainSyncResponse";
                  msg_id = txt "sync-resp-" ++ p.id ++ txt "-" ++ itoa now;
                  from = p.id;
                  payload = w.marshal_response (response_to local blocks req.from_height);
                })
                p).1)
    ]
  ]
