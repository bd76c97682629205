-- ===== src/Node.antt =====
-- peer/handin.go: the consensus settings of a node, the slots in which it
-- mines, and its monthly payout.
pub mod Schedule
use pokoinpos.Prelude.{
  ℕ, zero, suc, ◌+◌, ◌%◌, Bool, true, false, ◌||◌, ◌&&◌, not, Option, none, some, ◌++◌,
  if◌then◌else◌, ltb, ◌==◌,
}
use pokoinpos.Prelude.Int.{
  ℤ, pos, pos_part, neg_part, add_int, sub_int, mul_int, quotient, leb_ℤ, ltb_ℤ, eqb_ℤ,
}
use pokoinpos.Prelude.Run.{Run, done, ◌>>=◌}
use pokoinpos.Text.{Text, txt, is_empty}
use pokoinpos.Text.Decimal.{itoa}
use pokoinpos.Tx.{SignedTransaction}
use pokoinpos.Genesis.{GenesisMetaData}
use pokoinpos.Config.{NodeConfig}
use pokoinpos.Peer.{Peer, Wire}
use pokoinpos.Peer.Mempool.{mempool_size}
use pokoinpos.Peer.Mine.{mine_one_slot, validator_stake}
use pokoinpos.Peer.Make.{flood_validator_withdraw_transaction}
use pokoinpos.Peer.Queries.{peer_count}

abbrev pub monthly_payout_interval_seconds : ℤ
monthly_payout_interval_seconds = pos 2592000

abbrev pub max_int : ℤ
max_int = pos 9223372036854775807

-- For a genesis that is not nil.
unfoldable pub apply_runtime_consensus_config : NodeConfig → GenesisMetaData → GenesisMetaData
apply_runtime_consensus_config cfg genesis = record genesis {
  dynamic_hardness_fork_height = cfg.dynamic_hardness_fork_height;
  dynamic_hardness_min = cfg.dynamic_hardness_min;
  dynamic_hardness_max = cfg.dynamic_hardness_max;
  dynamic_hardness_window = cfg.dynamic_hardness_window;
  fast_block_target_slots = cfg.fast_block_target_slots;
  idle_block_target_slots = cfg.idle_block_target_slots;
}

-- `a % b == 0`, which does not depend on the signs.
abbrev pub divides : ℤ → ℤ → Bool
divides b a = (pos_part a + neg_part a) % (pos_part b + neg_part b) == 0

unfoldable pub should_mine_slot : ℤ → ℕ → NodeConfig → Bool
should_mine_slot slot mempool_depth cfg =
    if ltb 0 mempool_depth
    then true
    else if eqb_ℤ cfg.idle_slot_interval (pos 0)
    then true
    else eqb_ℤ slot (pos 1) || divides cfg.idle_slot_interval slot

unfoldable pub mine_attempts_for_network : ℤ → ℤ → NodeConfig → ℤ
mine_attempts_for_network mempool_depth given cfg =
    let available_nodes = if ltb_ℤ given (pos 1) then pos 1 else given in
    let network_attempts =
      add_int cfg.base_mine_attempts_per_tick
        (mul_int mempool_depth cfg.mine_attempts_per_pending_tx) in
    let attempts =
      quotient (sub_int (add_int network_attempts available_nodes) (pos 1)) available_nodes in
    if ltb_ℤ cfg.max_mine_attempts_per_tick attempts
    then cfg.max_mine_attempts_per_tick
    else if ltb_ℤ attempts cfg.base_mine_attempts_per_tick
    then cfg.base_mine_attempts_per_tick
    else attempts

-- The guard of the loop against a slot number that overflows.
unfoldable pub roll_over : ℤ → ℤ
roll_over slot = if eqb_ℤ slot max_int then pos 1 else slot

-- The id of a payout.
unfoldable pub payout_id : ℤ → Text → ℤ → Text
payout_id now address balance =
    txt "monthly-payout-" ++ itoa now ++ txt "-" ++ address ++ txt "-" ++ itoa balance

-- Whether no payout is due: no address, or the last payout is too recent.
unfoldable pub is_payout_early : ℤ → ℤ → NodeConfig → Bool
is_payout_early now last_payout cfg =
    is_empty cfg.reward_payout_address
    || (not (eqb_ℤ last_payout (pos 0))
        && ltb_ℤ (sub_int now last_payout) monthly_payout_interval_seconds)

module _ (w : Wire) where
  -- maybeQueueMonthlyPayout at a time: the transaction, the time of the last payout, and the peer. The
  -- withdrawal tests the key of the peer.
  unfoldable pub maybe_queue_monthly_payout :
      ℤ → NodeConfig → ℤ → Peer → Run (Option SignedTransaction × ℤ × Peer)
  maybe_queue_monthly_payout now cfg last_payout p =
      elim (is_payout_early now last_payout cfg || leb_ℤ (validator_stake p) (pos 0)) [
        | true ↦ done (none, last_payout, p)
        | false ↦ do
          (paid, p') ←
              flood_validator_withdraw_transaction w
                (payout_id now cfg.reward_payout_address (validator_stake p))
                cfg.reward_payout_address (validator_stake p) p
          done (paid, elim paid [ none ↦ last_payout | some t ↦ now ], p')
      ]

  -- The loop over the attempts of a tick: each takes a slot, and a mined block ends it.
  unfoldable pub mine_attempts : ℕ → ℤ → Peer → Run (ℤ × Peer)
  mine_attempts zero slot p = done (slot, p)
  mine_attempts (suc attempts) slot p = do
    (mined, p') ← mine_one_slot w slot p
    elim mined [
      | some b ↦ done (add_int slot (pos 1), p')
      | none ↦ mine_attempts attempts (add_int slot (pos 1)) p'
    ]

  -- The rest of a tick after the payout.
  unfoldable pub mine_tick : NodeConfig → ℤ → Peer → Run (ℤ × Peer)
  mine_tick cfg slot p = elim (should_mine_slot slot (mempool_size p) cfg) [
    | false ↦ done (add_int slot (pos 1), p)
    | true ↦ do
      let attempts = mine_attempts_for_network (pos (mempool_size p)) (pos (peer_count p + 1)) cfg
      (next, p') ← mine_attempts (pos_part attempts) slot p
      done (roll_over next, p')
  ]

  -- One tick of the node: the next slot, the time of the last payout, and the peer.
  unfoldable pub node_tick : ℤ → NodeConfig → ℤ → ℤ → Peer → Run (ℤ × ℤ × Peer)
  node_tick now cfg slot last_payout p = do
    (paid, last', p') ← maybe_queue_monthly_payout now cfg last_payout p
    (next, p'') ← mine_tick cfg slot p'
    done (next, last', p'')
