-- ===== src/Peer/Mine.antt =====
-- MineOneSlot, and what a peer reports of the hardness.
pub mod Accepted
use pokoinpos.Prelude.{
  ℕ, zero, suc, true, false, Option, none, some, List, [], ◌∷◌, map, if◌then◌else◌, length,
}
use pokoinpos.Prelude.Int.{ℤ, pos, leb_ℤ, ltb_ℤ}
use pokoinpos.Prelude.Run.{Run, done, ◌>>=◌}
use pokoinpos.Text.{Text, txt}
use pokoinpos.GoMap.{Map}
use pokoinpos.Tx.{SignedTransaction}
use pokoinpos.Crypto.{Account, safe_encode}
use pokoinpos.Genesis.{GenesisMetaData, apply_default_dynamic_hardness_config}
use pokoinpos.Ledger
use pokoinpos.Ledger.{Ledger}
use pokoinpos.Transaction.Apply.{transaction}
use pokoinpos.Chain.Block.{
  Block, block_size, wins_lottery, hash_text, sign_lottery_proof, compute_lottery_draw_from_proof,
  new_candidate_block,
}
use pokoinpos.Chain.Hardness.{effective_hardness_for_mining, average_recent_slot_interval}
use pokoinpos.Chain.Tree.{canonical_blocks, best_leaf_hash}
use pokoinpos.Chain.State.{ledger_from_blockchain}
use pokoinpos.Peer.{Message, Peer, Wire, count_up}
use pokoinpos.Peer.Flood.{flood_network}
use pokoinpos.Peer.Mempool.{Tried, share_payloads, prune_invalid_mempool, mempool_size}
use pokoinpos.Peer.Receive.{apply_block}

unfoldable pub optimistic_lottery_hardness : Peer → ℤ
optimistic_lottery_hardness p = elim p.genesis [
  | none ↦ pos 0
  | some g ↦
      if ltb_ℤ (pos 0) g.dynamic_hardness_max
      then g.dynamic_hardness_max
      else if ltb_ℤ (pos 0) g.hardness
      then g.hardness
      else pos 1
]

unfoldable pub validator_stake : Peer → ℤ
validator_stake p = elim p.miner [
  | none ↦ pos 0
  | some a ↦ Ledger.get_balance p.ledger (safe_encode a)
]

-- The counters that MineOneSlot raises.
abbrev pub count_attempt : Peer → Peer
count_attempt p = record p { lottery_attempts = count_up p.lottery_attempts }

abbrev pub count_miss : Peer → Peer
count_miss p = record p { lottery_misses = count_up p.lottery_misses }

abbrev pub count_no_ticket : Peer → Peer
count_no_ticket p = record p { lottery_no_ticket = count_up p.lottery_no_ticket }

abbrev pub count_win : Peer → Peer
count_win p = record p { lottery_wins = count_up p.lottery_wins }

abbrev pub count_mined : Peer → Peer
count_mined p = record p { mined_blocks = count_up p.mined_blocks }

module _ (w : Wire) where
  -- The loop that selects the transactions, over the mempool as it is listed: each as Transaction
  -- leaves it, and the mempool, whose payloads they share. `room` is what is left of BLOCK_SIZE; the
  -- loop tests it after each transaction.
  unfoldable pub select_transactions :
      ℕ → List SignedTransaction → Tried → Run (List SignedTransaction × Map SignedTransaction)
  select_transactions room [] (l, mempool) = done ([], mempool)
  select_transactions zero (t ∷ ts) (l, mempool) = done ([], mempool)
  select_transactions (suc room) (t ∷ ts) (l, mempool) = do
    (ok, left, next) ← transaction w.platform t l
    let tried : Tried = (next, share_payloads t.id left mempool)
    elim ok [
      | false ↦ select_transactions (suc room) ts tried
      | true ↦ do (rest, shared) ← select_transactions room ts tried; done (left ∷ rest, shared)
    ]

  -- The message that floods a mined block.
  unfoldable pub block_message : Block → Peer → Message
  block_message b p = record {
    msg_type = txt "Block";
    msg_id = hash_text w.platform b;
    from = p.id;
    payload = w.marshal_block_json b;
  }

  -- The end of MineOneSlot: the block is applied, and flooded where it was accepted.
  unfoldable pub publish : Block → Peer → Run (Option Block × Peer)
  publish b p = do
    (ok, p') ← apply_block w b p
    elim ok [
      | false ↦ done (none, p')
      | true ↦ do p'' ← flood_network (block_message b p) (count_mined p'); done (some b, p'')
    ]

  -- The candidate, from the selected transactions, and the test with its exact hardness.
  -- EffectiveHardnessForMining writes the defaults into the genesis of the peer.
  unfoldable pub try_candidate :
      ℤ
      → Account
      → GenesisMetaData
      → ℤ
      → ℤ
      → List Block
      → Text
      → List SignedTransaction
      → Peer
      → Run (Option Block × Peer)
  try_candidate slot miner genesis draw tickets parents parent_hash selected p =
      let hardness = effective_hardness_for_mining parents genesis (length selected) in
      let p' : Peer = record p { genesis = some (apply_default_dynamic_hardness_config genesis) } in
      elim (wins_lottery tickets hardness draw) [
        | false ↦ done (none, count_miss p')
        | true ↦
            publish (new_candidate_block w.platform miner slot parent_hash selected genesis.seed)
              (count_win p')
      ]

  -- The part of MineOneSlot after the tests of the lottery that need no candidate.
  unfoldable pub build_candidate :
      ℤ → Account → GenesisMetaData → ℤ → ℤ → List Block → Peer → Run (Option Block × Peer)
  build_candidate slot miner genesis draw tickets chain p = do
    parents ← canonical_blocks w.platform chain (pos 0)
    l ← ledger_from_blockchain w.platform chain (pos 0)
    parent_hash ← best_leaf_hash w.platform chain
    (removed, p') ← prune_invalid_mempool w p
    (selected, shared) ← select_transactions block_size (map (λ e. e.1) p'.mempool) (l, p'.mempool)
    try_candidate slot miner genesis draw tickets parents parent_hash selected
        (record p' { mempool = shared })

  -- The tests of the lottery, on a peer that has counted its attempt.
  unfoldable pub draw_lottery :
      ℤ → Account → GenesisMetaData → List Block → Peer → Run (Option Block × Peer)
  draw_lottery slot miner genesis chain p =
      elim (compute_lottery_draw_from_proof w.platform
        (sign_lottery_proof w.platform genesis.seed slot miner)) [
          | none ↦ done (none, count_miss p)
          | some draw ↦
              let tickets = validator_stake p in
              elim (leb_ℤ tickets (pos 0)) [
                | true ↦ done (none, count_no_ticket p)
                | false ↦ elim (wins_lottery tickets (optimistic_lottery_hardness p) draw) [
                  | false ↦ done (none, count_miss p)
                  | true ↦ build_candidate slot miner genesis draw tickets chain p
                ]
              ]
        ]

  unfoldable pub mine_one_slot : ℤ → Peer → Run (Option Block × Peer)
  mine_one_slot slot p = elim p.blockchain [
    | none ↦ done (none, p)
    | some chain ↦ elim p.miner [
      | none ↦ done (none, p)
      | some miner ↦ elim p.genesis [
        | none ↦ done (none, p)
        | some genesis ↦ draw_lottery slot miner genesis chain (count_attempt p)
      ]
    ]
  ]

  -- AverageRecentBlockSlots computes what averageRecentSlotInterval does.
  unfoldable pub average_recent_block_slots : ℤ → Peer → Run ℤ
  average_recent_block_slots window p = elim p.blockchain [
    | none ↦ done (pos 0)
    | some chain ↦ do
      blocks ← canonical_blocks w.platform chain (pos 0)
      done (average_recent_slot_interval blocks window)
  ]

  -- The defaults are written into the genesis of the peer here too.
  unfoldable pub current_effective_hardness : Peer → Run (ℤ × Peer)
  current_effective_hardness p = elim p.blockchain [
    | none ↦ done (pos 0, p)
    | some chain ↦ elim p.genesis [
      | none ↦ done (pos 0, p)
      | some genesis ↦ do
        blocks ← canonical_blocks w.platform chain (pos 0)
        done (
          effective_hardness_for_mining blocks genesis (mempool_size p),
          record p { genesis = some (apply_default_dynamic_hardness_config genesis) },
        )
    ]
  ]
