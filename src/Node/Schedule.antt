-- ===== src/Node/Schedule.antt =====
-- When a node mines, and when it pays out.
use pokoinpos.Prelude.{◌≡◌, refl, true, false, ◌||◌, Option, none, some, if◌then◌else◌, arith}
use pokoinpos.Prelude.Int.{ℤ, pos, add_int, sub_int, mul_int, quotient, leb_ℤ, ltb_ℤ, eqb_ℤ, ◌≤ℤ◌}
use pokoinpos.Prelude.Run.{done, on-true, After, After-if, After-any, After-return, After-done}
use pokoinpos.Tx.{SignedTransaction}
use pokoinpos.Peer.{Peer, Wire}
use pokoinpos.Peer.Mine.{validator_stake}
use pokoinpos.Peer.Make.{flood_validator_withdraw_transaction}
use pokoinpos.Config.{NodeConfig}
use pokoinpos.Node.{
  payout_id, mine_attempts_for_network, is_payout_early, maybe_queue_monthly_payout,
  monthly_payout_interval_seconds,
}

between :
    (attempts low high : ℤ)
    → low ≤ℤ high
    → let a = if ltb_ℤ high attempts then high else if ltb_ℤ attempts low then low else attempts in
      (low ≤ℤ a) × (a ≤ℤ high)
between attempts low high h = (ground arith, ground arith)

-- If the base number of attempts is at most the maximum, the attempts of a tick lie between the two,
-- whatever the depth of the mempool and the number of nodes.
pub mine_attempts_bounds :
    (mempool_depth available_nodes : ℤ) (cfg : NodeConfig)
    → cfg.base_mine_attempts_per_tick ≤ℤ cfg.max_mine_attempts_per_tick
    → (cfg.base_mine_attempts_per_tick
        ≤ℤ mine_attempts_for_network mempool_depth available_nodes cfg)
      × (mine_attempts_for_network mempool_depth available_nodes cfg
          ≤ℤ cfg.max_mine_attempts_per_tick)
unfolding mine_attempts_for_network
mine_attempts_bounds depth nodes cfg h =
    let available = if ltb_ℤ nodes (pos 1) then pos 1 else nodes in
    let network =
      add_int cfg.base_mine_attempts_per_tick (mul_int depth cfg.mine_attempts_per_pending_tx) in
    between (quotient (sub_int (add_int network available) (pos 1)) available)
      cfg.base_mine_attempts_per_tick cfg.max_mine_attempts_per_tick h

-- A payout notes its time.
abbrev PaidAt : ℤ → Option SignedTransaction × ℤ × Peer → Type 0
PaidAt now (none, time, q) = Unit
PaidAt now (some t, time, q) = time ≡ now

noted :
    (now last : ℤ) (q : Peer) (paid : Option SignedTransaction)
    → PaidAt now (paid, elim paid [ none ↦ last | some t ↦ now ], q)
noted now last q none = tt
noted now last q (some t) = refl

module _ (w : Wire) where
  payout-PaidAt :
      (now : ℤ) (cfg : NodeConfig) (last : ℤ) (p : Peer)
      → After (PaidAt now) (maybe_queue_monthly_payout w now cfg last p)
  unfolding maybe_queue_monthly_payout
  payout-PaidAt now cfg last p =
      After-if (PaidAt now) (is_payout_early now last cfg || leb_ℤ (validator_stake p) (pos 0)) _ _
        (After-any (PaidAt now)
          (flood_validator_withdraw_transaction w
            (payout_id now cfg.reward_payout_address (validator_stake p)) cfg.reward_payout_address
            (validator_stake p) p)
          _ (λ r. After-return (PaidAt now) (noted now last r.1 r.0)))
        (After-return (PaidAt now) tt)

  -- After a payout at a time that is not zero, no payout is made, and nothing changes, until the interval
  -- has passed.
  pub payout_once :
      (now later : ℤ) (cfg : NodeConfig) (last : ℤ) (p q r : Peer) (t : SignedTransaction)
      (time : ℤ)
      → maybe_queue_monthly_payout w now cfg last p ≡ done (some t, time, q)
      → eqb_ℤ now (pos 0) ≡ false
      → ltb_ℤ (sub_int later now) monthly_payout_interval_seconds ≡ true
      → maybe_queue_monthly_payout w later cfg time r ≡ done (none, time, r)
  unfolding maybe_queue_monthly_payout is_payout_early
  payout_once now later cfg last p q r t time e nonzero soon =
      let P : Option SignedTransaction × ℤ × Peer → Type 0 = PaidAt now in
      let at_now = After-done P (payout-PaidAt now cfg last p) e in
      on-true {b = is_payout_early later time cfg || leb_ℤ (validator_stake r) (pos 0)} _ _
        (ground (arith, at_now, nonzero, soon)) refl
