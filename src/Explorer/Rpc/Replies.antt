-- ===== src/Explorer/Rpc/Replies.antt =====
-- What the Ethereum interface answers.
use pokoinpos.Prelude.{
  ℕ, zero, suc, ◌≤◌, ◌<◌, ◌≡◌, ◌↔◌, refl, sym, ◌∙◌, Bool, true, ◌||◌, Option, none, some, List, [],
  ◌∷◌, length, ltb, arith, Bool-cases, inl, inr,
}
use pokoinpos.Prelude.Int.{ℤ, ltb_ℤ, ◌≤ℤ◌, wrap}
use pokoinpos.Prelude.Run.{
  done, panic, on-some, bind-done, After, After-any, After-if-known, After-return, After-done,
}
use pokoinpos.Text.{Text}
use pokoinpos.Tx.{SignedTransaction, NftPayload, AmmPayload, is_amm}
use pokoinpos.Transaction.Make.{new_evm_transaction}
use pokoinpos.Peer.{Peer, Wire}
use pokoinpos.Peer.Mempool.{best_nonce_of, pending_nonce_of}
use pokoinpos.Peer.Best.{best_balance_of}
use pokoinpos.Peer.Make.{flood_pos_transaction}
use pokoinpos.Explorer.{
  ExplorerTx, ExplorerBlock, explorer_tx_from_signed, signed_transaction_from_explorer,
}
use pokoinpos.Explorer.Rpc.{
  parse_hex_uint64, index_at, transaction_at, Reply, accept_raw, send_raw_transaction,
}

module _ (nft_json : Option NftPayload → Option NftPayload)
    (amm_json : Option AmmPayload → Option AmmPayload) where
  -- A transaction as it comes back from the explorer's index.
  abbrev pub reread : SignedTransaction → Text → ℕ → ℕ → Bool → SignedTransaction
  reread t hash height i finalized =
      signed_transaction_from_explorer nft_json amm_json
        (explorer_tx_from_signed t hash height i finalized)

  -- A transaction without an AMM payload comes back from the explorer's index as an AMM transaction, if
  -- the JSON of a nil pointer is read as an empty payload.
  pub reread-is_amm :
      (t : SignedTransaction) (empty : AmmPayload) (hash : Text) (height i : ℕ) (finalized : Bool)
      → amm_json none ≡ some empty
      → t.amm ≡ none
      → is_amm (reread t hash height i finalized) ≡ true
  unfolding signed_transaction_from_explorer explorer_tx_from_signed is_amm
  reread-is_amm t empty hash height i finalized null_law e = rw (e, null_law) refl

parse_hex_uint64-bound :
    (raw : Text) (n : ℕ) → parse_hex_uint64 raw ≡ some n → n < 18446744073709551616
unfolding parse_hex_uint64
parse_hex_uint64-bound raw n h = ground arith

index_at-inside :
    (txs : List ExplorerTx) (i : ℕ)
    → i < length txs
    → (tx : ExplorerTx) × (index_at txs i ≡ done tx)
unfolding index_at
index_at-inside [] i h = absurd (omega (arith, h))
index_at-inside (tx ∷ txs) zero h = (tx, refl)
index_at-inside (tx ∷ txs) (suc i) h = index_at-inside txs i (omega (arith, h))

index_at-outside : (txs : List ExplorerTx) (i : ℕ) → length txs ≤ i → index_at txs i ≡ panic
unfolding index_at
index_at-outside [] zero h = refl
index_at-outside [] (suc i) h = refl
index_at-outside (tx ∷ txs) zero h = absurd (omega (arith, h))
index_at-outside (tx ∷ txs) (suc i) h = index_at-outside txs i (omega (arith, h))

-- A block has fewer than 2^63 transactions here. eth_getTransactionByBlockNumberAndIndex and its
-- counterpart by hash panic exactly for an index of 2^63 or more, which int turns negative.
pub transaction_at-panic :
    (b : ExplorerBlock) (raw : Text) (index : ℕ)
    → length b.transactions < 9223372036854775808
    → parse_hex_uint64 raw ≡ some index
    → (transaction_at b raw ≡ panic) ↔ (9223372036854775808 ≤ index)
unfolding transaction_at wrap
transaction_at-panic b raw index few parsed =
    let bound = parse_hex_uint64-bound raw index parsed in
    elim (Bool-cases (ltb index 9223372036854775808)) [
      | inl small ↦ elim (Bool-cases (ltb index (length b.transactions))) [
        | inl inside ↦
            let (tx, e) = index_at-inside b.transactions index (ground (arith, inside)) in
            (
              (λ h. absurd (ground (arith, parsed, few, e, small, inside, h))),
              (λ h. absurd (ground (arith, h, small))),
            )
        | inr outside ↦ (
          (λ h. absurd (ground (arith, parsed, few, small, outside, h))),
          (λ h. absurd (ground (arith, h, small))),
        )
      ]
      | inr large ↦
          let e = index_at-outside b.transactions index (ground (arith, large, few)) in
          ((λ h. ground (arith, large)), (λ h. ground (arith, parsed, few, e, large, bound)))
    ]

module _ (w : Wire) where
  -- The conditions under which a raw transaction is taken.
  abbrev pub Taken : SignedTransaction → ℕ → ℕ → ℤ → Peer → Reply × Peer → Type 0
  Taken t best pending balance p (Reply.rpc_error code text, q) = q ≡ p
  Taken t best pending balance p (Reply.result id, q) =
      (id ≡ t.id) × (best ≤ t.nonce) × (t.nonce ≤ pending) × (t.amount ≤ℤ balance)

  raw_lem :
      (t : SignedTransaction) (best pending : ℕ) (balance : ℤ) (p : Peer)
      → After (Taken t best pending balance p) (accept_raw w t best pending balance p)
  unfolding accept_raw
  raw_lem t best pending balance p =
      let Q : Reply × Peer → Type 0 = Taken t best pending balance p in
      After-if-known Q (ltb t.nonce best || ltb pending t.nonce) _ _
        (λ nonce.
          After-if-known Q (ltb_ℤ balance t.amount) _ _
            (λ funds. After-any Q (flood_pos_transaction w t p) _ (λ q.
              After-return Q
                (refl, ground (arith, nonce), ground (arith, nonce), ground (arith, funds))))
            (λ poor. After-return Q refl))
        (λ bad. After-return Q refl)

  -- What eth_sendRawTransaction answers: an error, and then the peer stays as it is, or the id of the
  -- transaction, and then its nonce lies between the nonce of its sender on the best chain and the
  -- pending one, and the sender's balance there covers its amount.
  pub send_raw_transaction-Taken :
      (chain : ℤ) (raw : Text) (p q : Peer) (t : SignedTransaction) (best pending : ℕ) (balance : ℤ)
      (reply : Reply)
      → new_evm_transaction w.platform raw chain ≡ some t
      → best_nonce_of w p t.from ≡ done best
      → pending_nonce_of w p t.from ≡ done pending
      → best_balance_of w t.from p ≡ done balance
      → send_raw_transaction w chain raw p ≡ done (reply, q)
      → Taken t best pending balance p (reply, q)
  unfolding send_raw_transaction
  send_raw_transaction-Taken chain raw p q t best pending balance reply et eb ep ef e =
      let run = on-some _ _ et (bind-done _ eb (bind-done _ ep (bind-done _ ef refl))) in
      After-done (Taken t best pending balance p) (raw_lem t best pending balance p) (sym run ∙ e)
