-- ===== src/Peer/Mempool/Payloads.antt =====
-- What MempoolSummaries leaves of a peer: it writes the payloads of pending transactions and nothing else.
use pokoinpos.Prelude.{◌≡◌, refl, ◌∙◌, none, List, [], ◌∷◌, map, arith}
use pokoinpos.Prelude.Run.{After, After->>=, After-any, After-return}
use pokoinpos.Text.{Text}
use pokoinpos.GoMap.{Map}
use pokoinpos.Tx.{SignedTransaction}
use pokoinpos.Peer.{Peer, Wire}
use pokoinpos.Peer.Addresses.{sort_by}
use pokoinpos.Peer.Queries.{MempoolTxSummary}
use pokoinpos.Peer.Mempool.{share_payloads, best_ledger_would_accept}
use pokoinpos.Peer.Best.{summaries, mempool_summaries}

-- An entry of the mempool without its NFT and AMM payloads.
abbrev pub bare : Text × SignedTransaction → Text × SignedTransaction
bare (id, t) = (id, record t { nft = none; amm = none })

-- Two peers differ at most in the payloads of their pending transactions.
abbrev pub IsReread : Peer → Peer → Type 0
IsReread p q = (q ≡ record p { mempool = q.mempool }) × (map bare q.mempool ≡ map bare p.mempool)

share_payloads-bare :
    (key : Text) (left : SignedTransaction) (m : Map SignedTransaction)
    → map bare (share_payloads key left m) ≡ map bare m
unfolding share_payloads
share_payloads-bare key left [] = refl
share_payloads-bare key left (e ∷ rest) = ground (arith, share_payloads-bare key left rest)

module _ (w : Wire) where
  summaries-IsReread :
      (ts : List SignedTransaction) (p : Peer) → After (λ r. IsReread p r.1) (summaries w ts p)
  unfolding summaries
  summaries-IsReread [] p = After-return (λ r. IsReread p r.1) (refl, refl)
  summaries-IsReread (t ∷ ts) p =
      let Q : List MempoolTxSummary × Peer → Type 0 = λ r. IsReread p r.1 in
      After-any Q (best_ledger_would_accept w t p) _ (λ r.
        let p' = record p { mempool = share_payloads t.id r.1 p.mempool } in
        After->>= (λ r. IsReread p' r.1) Q (summaries w ts p') _ (summaries-IsReread ts p')
          (λ r h. After-return Q (h.0, h.1 ∙ share_payloads-bare _ _ p.mempool)))

  pub mempool_summaries-IsReread : (p : Peer) → After (λ r. IsReread p r.1) (mempool_summaries w p)
  unfolding mempool_summaries
  mempool_summaries-IsReread p =
      summaries-IsReread (sort_by (λ t. t.id) (map (λ e. e.1) p.mempool)) p
