-- ===== src/Peer/Committed/Synced.antt =====
-- A response to a chain sync request, and the committed ledger.
use pokoinpos.Prelude.{
  ◌≡◌, ℕ, ◌+◌, Bool, true, false, ◌&&◌, ◌||◌, not, Option, none, some, List, [], ◌∷◌, length, leb,
  ◌==◌, take, drop,
}
use pokoinpos.Prelude.Int.{ℤ, pos, add_int, eqb_ℤ}
use pokoinpos.Prelude.Run.{
  done, ◌>>=◌, After, After->>=, After-any, After-if, After-option, After-return, After-done,
}
use pokoinpos.Text.{Text, text_eq, is_empty}
use pokoinpos.Chain.Block.{Block, decode_genesis_from_meta}
use pokoinpos.Chain.Tree.{canonical_blocks}
use pokoinpos.Peer.{Message, Peer, Wire, ChainSyncResponse, ChainStatusSummary}
use pokoinpos.Peer.Frame.{Untouched, unchanged, request_chain_sync-Untouched}
use pokoinpos.Peer.Committed.{IsCommitted, install-IsCommitted}
use pokoinpos.Peer.Sync.{chain_status, can_adopt_remote_genesis, block_hash_string, last_of}
use pokoinpos.Peer.Sync.Install.{
  is_contiguous, install, adopt_remote_chain, install_suffix, install_synced_suffix,
  install_spliced, install_synced_overlap, same_genesis_content, install_from_ancestor,
  install_full_synced_chain, install_response, refuses_response, handle_chain_sync_response,
}

module _ (w : Wire) where
  -- What a response does: refused, it leaves what the peer holds of the chain and of the transactions
  -- alone; installed, the ledger is that of the new chain.
  abbrev pub Synced : Peer → Bool × Peer → Type 0
  Synced p (false, q) = Untouched p q
  Synced p (true, q) = IsCommitted w q

  refused-Synced : (p : Peer) → After (Synced p) (done (false, p))
  refused-Synced p = After-return (Synced p) (unchanged p)

  -- The two ends that install a list of blocks.
  installed-Synced :
      (p p' : Peer) (chain blocks : List Block)
      → After (Synced p) (install w chain blocks p' >>= λ q. done (true, q))
  installed-Synced p p' chain blocks =
      After->>= (IsCommitted w) (Synced p) (install w chain blocks p') _
        (install-IsCommitted w chain blocks p') (λ q h. After-return (Synced p) h)

  adopt-Synced : (blocks : List Block) (p : Peer) → After (Synced p) (adopt_remote_chain w blocks p)
  unfolding adopt_remote_chain
  adopt-Synced [] p = refused-Synced p
  adopt-Synced (b ∷ rest) p = After-option (Synced p) p.blockchain _ _ (refused-Synced p) (λ chain.
      After-if (Synced p) (is_empty b.parent_hash && is_contiguous w (b ∷ rest)) _ _
        (refused-Synced p)
        (After-option (Synced p) (decode_genesis_from_meta w.platform b.meta_data) _ _
          (refused-Synced p) (λ genesis. installed-Synced p _ chain (b ∷ rest))))

  suffix-Synced :
      (now : ℤ) (from hash : Text) (chain local blocks : List Block) (p : Peer)
      → After (Synced p) (install_suffix w now from hash chain local blocks p)
  unfolding install_suffix
  suffix-Synced now from hash chain [] blocks p = refused-Synced p
  suffix-Synced now from hash chain (g ∷ local) [] p = refused-Synced p
  suffix-Synced now from hash chain (g ∷ local) (b ∷ rest) p =
      After-if (Synced p) (text_eq b.parent_hash (block_hash_string w (last_of g local))) _ _
        (After-return (Synced p) (request_chain_sync-Untouched w now from _ p))
        (After-if (Synced p) (is_contiguous w (b ∷ rest)) _ _ (refused-Synced p)
          (installed-Synced p p chain _))

  spliced-Synced :
      (chain local blocks : List Block) (common : Option (ℕ × ℕ)) (p : Peer)
      → After (Synced p) (install_spliced w chain local blocks common p)
  unfolding install_spliced
  spliced-Synced chain local blocks none p = refused-Synced p
  spliced-Synced chain local blocks (some (cl, cr)) p =
      After-if (Synced p)
        (leb (length blocks) (cr + 1)
          || leb (length (take (cl + 1) local) + length (drop (cr + 1) blocks)) (length local))
        _ _ (installed-Synced p p chain _) (refused-Synced p)

  overlap-Synced :
      (chain blocks : List Block) (p : Peer)
      → After (Synced p) (install_synced_overlap w chain blocks p)
  unfolding install_synced_overlap
  overlap-Synced chain blocks p =
      After-any (Synced p) (canonical_blocks w.platform chain (pos 0)) _ (λ local.
        After-if (Synced p)
          ((length local == 0) || (length blocks == 0) || not (is_contiguous w blocks)) _ _
          (spliced-Synced chain local blocks _ p) (refused-Synced p))

  ancestor-Synced :
      (chain local blocks : List Block) (common : Option (ℕ × ℕ)) (p : Peer)
      → After (Synced p) (install_from_ancestor w chain local blocks common p)
  unfolding install_from_ancestor
  ancestor-Synced chain local blocks none p = refused-Synced p
  ancestor-Synced chain local blocks (some (cl, cr)) p =
      After-if (Synced p) ((cr == 0) || (cl == 0) || not (is_contiguous w blocks)) _ _
        (installed-Synced p p chain _) (refused-Synced p)

  full-Synced :
      (chain blocks : List Block) (p : Peer)
      → After (Synced p) (install_full_synced_chain w chain blocks p)
  unfolding install_full_synced_chain
  full-Synced chain blocks p =
      After-any (Synced p) (canonical_blocks w.platform chain (pos 0)) _ (λ local.
        After-if (Synced p)
          ((length local == 0)
            || leb (length blocks) (length local)
            || not (same_genesis_content w local blocks))
          _ _ (ancestor-Synced chain local blocks _ p) (refused-Synced p))

  suffix_of-Synced :
      (now : ℤ) (from hash : Text) (chain blocks : List Block) (p : Peer)
      → After (Synced p) (install_synced_suffix w now from hash chain blocks p)
  unfolding install_synced_suffix
  suffix_of-Synced now from hash chain blocks p =
      After-any (Synced p) (canonical_blocks w.platform chain (pos 0)) _
        (λ local. suffix-Synced now from hash chain local blocks p)

  response-Synced :
      (now : ℤ) (from : Text) (chain : List Block) (local : ChainStatusSummary)
      (resp : ChainSyncResponse) (p : Peer)
      → After (Synced p) (install_response w now from chain local resp p)
  unfolding install_response
  response-Synced now from chain local resp p =
      let count = pos (length resp.blocks) in
      let whole = eqb_ℤ count (add_int resp.height (pos 1)) in
      After-if (Synced p) (text_eq resp.genesis_hash local.genesis_hash) _ _
        (After-if (Synced p) whole _ _ (refused-Synced p) (adopt-Synced resp.blocks p))
        (After-if (Synced p) whole _ _
          (After-if (Synced p) (eqb_ℤ resp.height (add_int local.height count)) _ _
            (overlap-Synced chain resp.blocks p)
            (suffix_of-Synced now from resp.genesis_hash chain resp.blocks p))
          (full-Synced chain resp.blocks p))

  pub response_lem :
      (now : ℤ) (msg : Message) (p : Peer)
      → After (Synced p) (handle_chain_sync_response w now msg p)
  unfolding handle_chain_sync_response
  response_lem now msg p = After-option (Synced p) p.blockchain _ _ (refused-Synced p) (λ chain.
      After-option (Synced p) (w.unmarshal_response msg.payload) _ _ (refused-Synced p) (λ resp.
        After-any (Synced p) (chain_status w p) _ (λ local.
          After-any (Synced p) (can_adopt_remote_genesis w p) _ (λ adopt.
            After-if (Synced p) (refuses_response w local resp adopt) _ _
              (response-Synced now msg.from chain local resp p) (refused-Synced p)))))

  -- A response that is refused leaves the blockchain, the finality depth, the ledger and the mempool of
  -- the peer alone; after one that is installed the ledger is what the new chain computes up to the
  -- finality depth.
  pub handle_chain_sync_response-Synced :
      (now : ℤ) (msg : Message) (p : Peer) {r : Bool × Peer}
      → handle_chain_sync_response w now msg p ≡ done r
      → Synced p r
  handle_chain_sync_response-Synced now msg p e = After-done (Synced p) (response_lem now msg p) e
