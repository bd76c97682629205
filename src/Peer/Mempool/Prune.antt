-- ===== src/Peer/Mempool/Prune.antt =====
-- The rounds of pruneInvalidMempool end.
use pokoinpos.Prelude.{
  ℕ, zero, suc, ◌+◌, ◌≤◌, ◌<◌, ◌≡◌, refl, Bool, true, false, ◌⊎◌, List, [], ◌∷◌, length, arith,
  if◌then◌else◌, All, Bool-cases, inl, inr,
}
use pokoinpos.Prelude.Run.{Run, done, bind-done, on-true, on-false}
use pokoinpos.Text.{Text, text_eq_refl}
use pokoinpos.GoMap.{at, insert, lookup-insert}
use pokoinpos.Tx.{SignedTransaction}
use pokoinpos.Ledger.{Ledger}
use pokoinpos.Transaction.Apply.{transaction}
use pokoinpos.Peer.{Wire}
use pokoinpos.Peer.Mempool.{Kept, Tried, share_payloads, prune_pass, prune_rounds}

-- How many of some transactions are not kept.
abbrev pub left_out : List SignedTransaction → Kept → ℕ
left_out [] keep = 0
left_out (t ∷ ts) keep = if at false t.id keep then left_out ts keep else suc (left_out ts keep)

keep_mono :
    (id : Text) (keep : Kept) (j : Text)
    → at false j keep ≡ true
    → at false j (insert id true keep) ≡ true
keep_mono id keep j h = ground (arith, lookup-insert id j true keep)

keep-new : (id : Text) (keep : Kept) → at false id (insert id true keep) ≡ true
keep-new id keep = ground (arith, lookup-insert id id true keep, text_eq_refl id)

-- A larger set leaves out no more.
left_out_mono :
    (id : Text) (keep : Kept) (ts : List SignedTransaction)
    → left_out ts (insert id true keep) ≤ left_out ts keep
left_out_mono id keep [] = omega arith
left_out_mono id keep (t ∷ ts) = ground (arith, keep_mono id keep t.id, left_out_mono id keep ts)

left_out-length : (ts : List SignedTransaction) (keep : Kept) → left_out ts keep ≤ length ts
left_out-length [] keep = omega arith
left_out-length (t ∷ ts) keep = ground (arith, left_out-length ts keep)

kept-stays :
    (t : SignedTransaction) (keep keep' : Kept)
    → ((us : List SignedTransaction) → left_out us keep' ≤ left_out us keep)
    → at false t.id keep ≡ true
    → at false t.id keep' ≡ true
kept-stays t keep keep' mono h = ground (arith, mono (t ∷ []))

module _ (w : Wire) where
  -- Transaction returns on every ledger: it does not panic on a key that is too short.
  abbrev pub Runs : SignedTransaction → Type 0
  Runs t =
      (l : Ledger) → (r : Bool × SignedTransaction × Ledger) × (transaction w.platform t l ≡ done r)

  -- A pass that returns, keeps what was kept, and has kept something more if it reports progress.
  abbrev Passes : List SignedTransaction → Kept → Bool → Run (Kept × Tried × Bool) → Type 0
  Passes ts keep progress m =
      (keep' : Kept) × (s' : Tried) × (progress' : Bool) × (m ≡ done (keep', s', progress'))
      × ((us : List SignedTransaction) → left_out us keep' ≤ left_out us keep)
      × (progress' ≡ true → (progress ≡ true) ⊎ (left_out ts keep' < left_out ts keep))

  prune_pass-Passes :
      (ts : List SignedTransaction) (keep : Kept) (s : Tried) (progress : Bool)
      → All Runs ts
      → Passes ts keep progress (prune_pass w ts (keep, s, progress))
  unfolding prune_pass
  prune_pass-Passes [] keep s progress runs =
      (keep, s, progress, refl, (λ us. omega arith), (λ e. inl e))
  prune_pass-Passes (t ∷ ts) keep (l, mempool) progress (run, runs) =
      elim (Bool-cases (at false t.id keep)) [
        | inl kept ↦
            let (keep', s', progress', e, mono, more) =
              prune_pass-Passes ts keep (l, mempool) progress runs in
            (
              keep',
              s',
              progress',
              on-true _ _ kept e,
              mono,
              (λ h. elim (more h) [
                | inl p ↦ inl p
                | inr lt ↦ inr (ground (arith, kept, lt, kept-stays t keep keep' mono kept))
              ]),
            )
        | inr fresh ↦
            let ((ok, left, next), e) = run l in
            let tried : Tried = (next, share_payloads t.id left mempool) in
            elim ok
                as (λ ok.
                  transaction w.platform t l ≡ done (ok, left, next)
                  → Passes (t ∷ ts) keep progress
                      (prune_pass w (t ∷ ts) (keep, (l, mempool), progress))) [
                        | true ↦ λ e.
                            let keep1 = insert t.id true keep in
                            let (keep', s', progress', e', mono, more) =
                              prune_pass-Passes ts keep1 tried true runs in
                            (
                              keep',
                              s',
                              progress',
                              on-false _ _ fresh (bind-done _ e e'),
                              (λ us. ground (arith, mono us, left_out_mono t.id keep us)),
                              (λ h. inr (
                                  ground (
                                    arith,
                                    fresh,
                                    mono ts,
                                    left_out_mono t.id keep ts,
                                    kept-stays t keep1 keep' mono (keep-new t.id keep),
                                  ))),
                            )
                        | false ↦ λ e.
                            let (keep', s', progress', e', mono, more) =
                              prune_pass-Passes ts keep tried progress runs in
                            (
                              keep',
                              s',
                              progress',
                              on-false _ _ fresh (bind-done _ e e'),
                              mono,
                              (λ h. elim (more h) [
                                | inl p ↦ inl p
                                | inr lt ↦ inr (ground (arith, fresh, lt))
                              ]),
                            )
                      ]
              e
      ]

  rounds_return :
      (fuel : ℕ) (pending : List SignedTransaction) (keep : Kept) (s : Tried)
      → All Runs pending
      → left_out pending keep < fuel
      → (r : Kept × Tried) × (prune_rounds w fuel pending (keep, s) ≡ done r)
  unfolding prune_rounds
  rounds_return zero pending keep s runs lt = absurd (omega arith)
  rounds_return (suc fuel) pending keep s runs lt =
      let (keep', s', progress', e, mono, more) = prune_pass-Passes pending keep s false runs in
      elim progress'
          as (λ b.
            prune_pass w pending (keep, s, false) ≡ done (keep', s', b)
            → (b ≡ true → (false ≡ true) ⊎ (left_out pending keep' < left_out pending keep))
            → (r : Kept × Tried) × (prune_rounds w (suc fuel) pending (keep, s) ≡ done r)) [
              | false ↦ λ e more. ((keep', s'), bind-done _ e refl)
              | true ↦ λ e more. elim (more refl) [
                | inl absurd' ↦ cc
                | inr lt' ↦
                    let (r, e') = rounds_return fuel pending keep' s' runs (omega arith) in
                    (r, bind-done _ e e')
              ]
            ]
        e more

  -- The loop of pruneInvalidMempool ends: on pending transactions that Transaction does not panic on,
  -- one round more than there are transactions is enough, from any set of kept ids, any ledger and any
  -- mempool.
  pub prune_rounds-returns :
      (pending : List SignedTransaction) (keep : Kept) (s : Tried)
      → All Runs pending
      → (r : Kept × Tried) × (prune_rounds w (length pending + 1) pending (keep, s) ≡ done r)
  prune_rounds-returns pending keep s runs =
      rounds_return (length pending + 1) pending keep s runs
        (omega (arith, left_out-length pending keep))
