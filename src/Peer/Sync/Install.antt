-- ===== src/Peer/Sync/Install.antt =====
-- How a response to a chain sync request is installed.
use pokoinpos.Prelude.{
  ℕ, ◌+◌, Bool, true, false, ◌&&◌, ◌||◌, not, Option, none, some, List, [], ◌∷◌, ◌++◌, length, take,
  drop, leb, ◌==◌,
}
use pokoinpos.Prelude.Int.{ℤ, pos, add_int, leb_ℤ, eqb_ℤ}
use pokoinpos.Prelude.Run.{Run, done, ◌>>=◌}
use pokoinpos.Text.{Text, text_eq, is_empty}
use pokoinpos.GoMap.{Map, lookup, insert}
use pokoinpos.Chain.Block.{Block, decode_genesis_from_meta}
use pokoinpos.Chain.Tree.{canonical_blocks, replace_blocks}
use pokoinpos.Chain.State.{ledger_from_blockchain}
use pokoinpos.Peer.{Message, Peer, Wire, ChainSyncResponse, ChainStatusSummary}
use pokoinpos.Peer.Sync.{
  last_of, block_hash_string, genesis_content_hash, chain_status, request_chain_sync,
  can_adopt_remote_genesis,
}

module _ (w : Wire) where
  -- `blocks[i].ParentHash != blockHashString(blocks[i-1])` for every i from 1 on, turned round.
  unfoldable pub is_contiguous : List Block → Bool
  is_contiguous [] = true
  is_contiguous (a ∷ []) = true
  is_contiguous (a ∷ b ∷ rest) =
      let below = is_contiguous (b ∷ rest) in text_eq b.parent_hash (block_hash_string w a) && below

  -- The two lines that end every installation: ReplaceBlocks and the new ledger.
  unfoldable pub install : List Block → List Block → Peer → Run Peer
  install chain blocks p =
      let replaced = replace_blocks chain blocks in
      do
        l ← ledger_from_blockchain w.platform replaced p.finality_depth
        done (record p { blockchain = some replaced; ledger = l })

  unfoldable pub adopt_remote_chain : List Block → Peer → Run (Bool × Peer)
  adopt_remote_chain [] p = done (false, p)
  adopt_remote_chain (b ∷ rest) p = elim p.blockchain [
    | none ↦ done (false, p)
    | some chain ↦ elim (is_empty b.parent_hash && is_contiguous (b ∷ rest)) [
      | false ↦ done (false, p)
      | true ↦ elim (decode_genesis_from_meta w.platform b.meta_data) [
        | none ↦ done (false, p)
        | some genesis ↦ do
          p' ← install chain (b ∷ rest) (record p { genesis = some genesis })
          done (true, p')
      ]
    ]
  ]

  -- installSyncedSuffix on the blocks of the chain. A suffix that does not start at the last local
  -- block makes the peer ask for the whole chain.
  unfoldable pub install_suffix :
      ℤ → Text → Text → List Block → List Block → List Block → Peer → Run (Bool × Peer)
  install_suffix now peer genesis_hash chain [] blocks p = done (false, p)
  install_suffix now peer genesis_hash chain (g ∷ local) [] p = done (false, p)
  install_suffix now peer genesis_hash chain (g ∷ local) (b ∷ rest) p =
      elim (text_eq b.parent_hash (block_hash_string w (last_of g local))) [
        | false ↦ done (
          false,
          request_chain_sync w now peer
              (record { genesis_hash = genesis_hash; from_height = pos 0 }) p,
        )
        | true ↦ elim (is_contiguous (b ∷ rest)) [
          | false ↦ done (false, p)
          | true ↦ do p' ← install chain ((g ∷ local) ++ (b ∷ rest)) p; done (true, p')
        ]
      ]

  unfoldable pub install_synced_suffix :
      ℤ → Text → Text → List Block → List Block → Peer → Run (Bool × Peer)
  install_synced_suffix now peer genesis_hash chain blocks p = do
    local ← canonical_blocks w.platform chain (pos 0)
    install_suffix now peer genesis_hash chain local blocks p

  -- `localHashes`: the index of each local block by its hash; a later block replaces an earlier one.
  unfoldable pub local_hashes : List Block → ℕ → Map ℕ → Map ℕ
  local_hashes [] i hashes = hashes
  local_hashes (b ∷ rest) i hashes =
      local_hashes rest (i + 1) (insert (block_hash_string w b) i hashes)

  -- The loop that finds the last remote block that is local too: its index there and here. `none`
  -- stands for the two -1.
  unfoldable pub last_common : Map ℕ → List Block → ℕ → Option (ℕ × ℕ) → Option (ℕ × ℕ)
  last_common hashes [] i found = found
  last_common hashes (b ∷ rest) i found =
      last_common hashes rest (i + 1) (elim (lookup (block_hash_string w b) hashes) [
        | none ↦ found
        | some local_index ↦ some (local_index, i)
      ])

  -- Local blocks up to the common one, then the remote blocks after it.
  abbrev pub spliced : List Block → List Block → ℕ → ℕ → List Block
  spliced local blocks common_local common_remote =
      take (common_local + 1) local ++ drop (common_remote + 1) blocks

  -- The end of installSyncedOverlap.
  unfoldable pub install_spliced :
      List Block → List Block → List Block → Option (ℕ × ℕ) → Peer → Run (Bool × Peer)
  install_spliced chain local blocks none p = done (false, p)
  install_spliced chain local blocks (some (cl, cr)) p =
      elim (leb (length blocks) (cr + 1)
        || leb (length (take (cl + 1) local) + length (drop (cr + 1) blocks)) (length local)) [
          | true ↦ done (false, p)
          | false ↦ do p' ← install chain (spliced local blocks cl cr) p; done (true, p')
        ]

  unfoldable pub install_synced_overlap : List Block → List Block → Peer → Run (Bool × Peer)
  install_synced_overlap chain blocks p = do
    local ← canonical_blocks w.platform chain (pos 0)
    elim ((length local == 0) || (length blocks == 0) || not (is_contiguous blocks)) [
      | true ↦ done (false, p)
      | false ↦
          install_spliced chain local blocks (last_common (local_hashes local 0 []) blocks 0 none) p
    ]

  unfoldable pub same_genesis_content : List Block → List Block → Bool
  same_genesis_content [] blocks = false
  same_genesis_content local [] = false
  same_genesis_content (g ∷ local) (b ∷ blocks) =
      text_eq (genesis_content_hash w b) (genesis_content_hash w g)

  -- The end of installFullSyncedChainFromCommonAncestor: a common block beyond the genesis block.
  unfoldable pub install_from_ancestor :
      List Block → List Block → List Block → Option (ℕ × ℕ) → Peer → Run (Bool × Peer)
  install_from_ancestor chain local blocks none p = done (false, p)
  install_from_ancestor chain local blocks (some (cl, cr)) p =
      elim ((cr == 0) || (cl == 0) || not (is_contiguous blocks)) [
        | true ↦ done (false, p)
        | false ↦ do p' ← install chain (spliced local blocks cl cr) p; done (true, p')
      ]

  unfoldable pub install_full_synced_chain : List Block → List Block → Peer → Run (Bool × Peer)
  install_full_synced_chain chain blocks p = do
    local ← canonical_blocks w.platform chain (pos 0)
    elim ((length local == 0)
        || leb (length blocks) (length local)
        || not (same_genesis_content local blocks)) [
          | true ↦ done (false, p)
          | false ↦
              install_from_ancestor chain local blocks
                (last_common (local_hashes local 0 []) blocks 0 none) p
        ]

  -- The tests on the lengths, by which a response is installed.
  unfoldable pub install_response :
      ℤ → Text → List Block → ChainStatusSummary → ChainSyncResponse → Peer → Run (Bool × Peer)
  install_response now from chain local resp p =
      let count = pos (length resp.blocks) in
      let whole = eqb_ℤ count (add_int resp.height (pos 1)) in
      elim (text_eq resp.genesis_hash local.genesis_hash) [
        | false ↦ elim whole [ false ↦ done (false, p) | true ↦ adopt_remote_chain resp.blocks p ]
        | true ↦ elim whole [
          | true ↦ install_full_synced_chain chain resp.blocks p
          | false ↦ elim (eqb_ℤ resp.height (add_int local.height count)) [
            | false ↦ install_synced_overlap chain resp.blocks p
            | true ↦ install_synced_suffix now from resp.genesis_hash chain resp.blocks p
          ]
        ]
      ]

  -- The tests before: the genesis, and a longer chain.
  abbrev pub refuses_response : ChainStatusSummary → ChainSyncResponse → Bool → Bool
  refuses_response local resp adopt =
      is_empty resp.genesis_hash
      || (not (text_eq resp.genesis_hash local.genesis_hash) && not adopt)
      || leb_ℤ resp.height local.height
      || (length resp.blocks == 0)

  unfoldable pub handle_chain_sync_response : ℤ → Message → Peer → Run (Bool × Peer)
  handle_chain_sync_response now msg p = elim p.blockchain [
    | none ↦ done (false, p)
    | some chain ↦ elim (w.unmarshal_response msg.payload) [
      | none ↦ done (false, p)
      | some resp ↦ do
        local ← chain_status w p
        adopt ← can_adopt_remote_genesis w p
        elim (refuses_response local resp adopt) [
          | true ↦ done (false, p)
          | false ↦ install_response now msg.from chain local resp p
        ]
    ]
  ]
