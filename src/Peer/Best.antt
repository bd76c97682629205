-- ===== src/Peer/Best.antt =====
-- What a peer reports of its best chain, and of the ledger that the whole of it computes.
use pokoinpos.Prelude.{
  ℕ, ◌+◌, Bool, false, ◌&&◌, Option, none, some, List, [], ◌∷◌, map, if◌then◌else◌,
}
use pokoinpos.Prelude.Int.{ℤ, pos, sub_int, leb_ℤ, ltb_ℤ}
use pokoinpos.Prelude.Run.{Run, done, ◌>>=◌}
use pokoinpos.Text.{Text, txt, text_eq, trim_space, trim_prefix, to_lower}
use pokoinpos.Text.Hex.{hex_encode}
use pokoinpos.GoMap.{Map}
use pokoinpos.Tx.{SignedTransaction, NftToken, AmmPool, is_evm, is_nft, is_amm}
use pokoinpos.Assets.{asset_pkn}
use pokoinpos.Ledger
use pokoinpos.Ledger.{
  Ledger, EvmAccount, EvmReceipt, get_nonce, is_validator, amm_pool, evm_receipt, nft_token,
  nfts_by_owner, tx_count,
}
use pokoinpos.Ledger.Copies.{
  copy_asset_balances, copy_amm_pools, copy_nfts, copy_evm_accounts, get_evm_code, get_evm_storage,
  zero_word,
}
use pokoinpos.Chain.Block.{Block, get_block_hash}
use pokoinpos.Chain.Tree.{canonical_blocks}
use pokoinpos.Chain.State.{ledger_from_blockchain}
use pokoinpos.Peer.{Peer, Wire}
use pokoinpos.Peer.Mempool.{best_ledger_would_accept, share_payloads}
use pokoinpos.Peer.Addresses.{sort_by}
use pokoinpos.Peer.Sync.{chain_height}
use pokoinpos.Peer.Queries.{
  MempoolTxSummary, dynamic_hardness_fork_height, list_balances, nth_block,
}

module _ (w : Wire) where
  -- `account.LedgerFromBlockchain(p.blockchain, 0)`, and what a peer without a chain answers.
  unfoldable pub on_best {ℓ} : {A : Type ℓ} → A → (Ledger → A) → Peer → Run A
  on_best nothing read p = elim p.blockchain [
    | none ↦ done nothing
    | some chain ↦ do l ← ledger_from_blockchain w.platform chain (pos 0); done (read l)
  ]

  unfoldable pub is_authorized_validator : Text → Peer → Run Bool
  is_authorized_validator account p = on_best false (λ l. is_validator l account) p

  unfoldable pub best_balance_of : Text → Peer → Run ℤ
  best_balance_of account p = on_best (pos 0) (λ l. Ledger.get_balance l account) p

  unfoldable pub best_nfts : Peer → Run (Map NftToken)
  best_nfts p = on_best [] copy_nfts p

  unfoldable pub best_nft : Text → Text → Peer → Run (Option NftToken)
  best_nft collection token p = on_best none (λ l. nft_token l collection token) p

  unfoldable pub best_nfts_by_owner : Text → Peer → Run (List NftToken)
  best_nfts_by_owner owner p = on_best [] (λ l. nfts_by_owner l owner) p

  unfoldable pub best_asset_balances : Text → Peer → Run (Map ℤ)
  best_asset_balances given p =
      let account = to_lower (trim_space given) in
      on_best []
        (λ l.
          list_balances account (copy_asset_balances l)
            ((asset_pkn, Ledger.get_balance l account) ∷ []))
        p

  unfoldable pub best_amm_pools : Peer → Run (Map AmmPool)
  best_amm_pools p = on_best [] copy_amm_pools p

  unfoldable pub best_amm_pool : Text → Peer → Run (Option AmmPool)
  best_amm_pool pool p = on_best none (λ l. amm_pool l pool) p

  unfoldable pub best_evm_code : Text → Peer → Run Text
  best_evm_code address p = on_best [] (λ l. get_evm_code l address) p

  unfoldable pub best_evm_storage : Text → Text → Peer → Run Text
  best_evm_storage address slot p = on_best zero_word (λ l. get_evm_storage l address slot) p

  unfoldable pub best_evm_accounts : Peer → Run (Map EvmAccount)
  best_evm_accounts p = on_best [] copy_evm_accounts p

  -- The method EVMReceipt of a peer.
  unfoldable pub best_evm_receipt : Text → Peer → Run (Option EvmReceipt)
  best_evm_receipt hash p = on_best none (λ l. evm_receipt l hash) p

  unfoldable pub dynamic_hardness_active : Peer → Run Bool
  dynamic_hardness_active p = do
    height ← chain_height w p
    let fork_height = dynamic_hardness_fork_height p
    done (ltb_ℤ (pos 0) fork_height && leb_ℤ fork_height (pos height))

  unfoldable pub block_by_number : ℤ → Peer → Run (Option (Block × ℕ))
  block_by_number height p = elim p.blockchain [
    | none ↦ done none
    | some chain ↦ do
      blocks ← canonical_blocks w.platform chain (pos 0)
      done (nth_block height blocks)
  ]

  -- The loop of BlockByHash.
  unfoldable pub find_hash : Text → List Block → ℕ → Option (Block × ℕ)
  find_hash hash [] height = none
  find_hash hash (b ∷ rest) height =
      if text_eq (hex_encode (get_block_hash w.platform b)) hash
      then some (b, height)
      else find_hash hash rest (height + 1)

  unfoldable pub block_by_hash : Text → Peer → Run (Option (Block × ℕ))
  block_by_hash hash p = elim p.blockchain [
    | none ↦ done none
    | some chain ↦ do
      blocks ← canonical_blocks w.platform chain (pos 0)
      done (find_hash (trim_prefix (to_lower hash) (txt "0x")) blocks 0)
  ]

  unfoldable pub committed_height : Peer → Run ℤ
  committed_height p = do
    height ← chain_height w p
    done (
        if leb_ℤ (pos height) p.finality_depth
        then pos 0
        else sub_int (pos height) p.finality_depth)

  unfoldable pub summary : Bool → SignedTransaction → MempoolTxSummary
  summary applies t = record {
    id = t.id;
    kind = t.kind;
    from = t.from;
    to = t.to;
    amount = t.amount;
    nonce = t.nonce;
    chain_id = t.chain_id;
    of_evm = is_evm t;
    of_amm = is_amm t;
    of_nft = is_nft t;
    best_ledger_would_apply = applies;
  }

  -- The loop of MempoolSummaries. Its `candidate := tx` shares its payloads with the mempool.
  unfoldable pub summaries : List SignedTransaction → Peer → Run (List MempoolTxSummary × Peer)
  summaries [] p = done ([], p)
  summaries (t ∷ ts) p = do
    (ok, left) ← best_ledger_would_accept w t p
    (rest, q) ← summaries ts (record p { mempool = share_payloads t.id left p.mempool })
    done (summary ok t ∷ rest, q)

  unfoldable pub mempool_summaries : Peer → Run (List MempoolTxSummary × Peer)
  mempool_summaries p = summaries (sort_by (λ t. t.id) (map (λ e. e.1) p.mempool)) p
