-- ===== src/Service/Pages.antt =====
-- peer/runtime_ops.go: the handlers of the state of the chain and of the node, which only read the peer.
use pokoinpos.Prelude.{true, false, none, some, [], ◌∷◌, ◌++◌, if◌then◌else◌, length}
use pokoinpos.Prelude.Int.{ℤ, pos}
use pokoinpos.Prelude.Run.{Run, done, ◌>>=◌}
use pokoinpos.Text.{Text, txt}
use pokoinpos.Text.Decimal.{itoa}
use pokoinpos.Bootstrap.{new_bootstrap_registry}
use pokoinpos.Explorer.{ExplorerBlock, ExplorerIndex, build_explorer_index}
use pokoinpos.Explorer.Rpc.{block_at}
use pokoinpos.Peer.{Peer, Wire}
use pokoinpos.Peer.Mempool.{mempool_size}
use pokoinpos.Peer.Mine.{validator_stake, average_recent_block_slots}
use pokoinpos.Peer.Sync.{chain_height}
use pokoinpos.Peer.Queries.{
  peer_count, tx_history_count, supply_snapshot, is_ready, authorized_peers,
  active_authorized_peers,
}
use pokoinpos.Peer.Best.{committed_height}
use pokoinpos.Service.{
  text, number, boolean, items, natural, literal, slice, peer_authorization, supply,
  bootstrap_status, Response, json, plain, Moment, OpsServer, node_version,
}

-- The zero value that a missing key gives.
abbrev pub no_block : ExplorerBlock
no_block = record {
  number = 0;
  hash = [];
  parent_hash = [];
  slot = pos 0;
  draw = pos 0;
  miner = [];
  transaction_count = 0;
  transactions = [];
  finalized = false;
}

unfoldable pub latest_block : ExplorerIndex → ExplorerBlock
latest_block idx = elim (block_at idx (pos idx.latest_height)) [ none ↦ no_block | some b ↦ b ]

-- One line of the metrics.
abbrev pub gauge : Text → ℤ → Text
gauge name n = txt "pokoinpos_" ++ name ++ txt " " ++ itoa n ++ txt "\n"

module _ (w : Wire) (s : OpsServer) (now : Moment) where
  unfoldable pub health : Peer → Run Response
  health p = do
    height ← chain_height w p
    committed ← committed_height w p
    done (
        json 200 (
          literal (
            (txt "status", text (txt "ok"))
            ∷ (txt "version", text node_version)
            ∷ (txt "currencySymbol", text (txt "PKN"))
            ∷ (txt "peerCount", natural (peer_count p))
            ∷ (txt "chainHeight", natural height)
            ∷ (txt "committedHeight", number committed)
            ∷ (txt "finalityDepth", number p.finality_depth)
            ∷ (txt "mempoolDepth", natural (mempool_size p))
            ∷ (txt "validatorStake", number (validator_stake p))
            ∷ (txt "acceptedBlocks", natural p.accepted_blocks)
            ∷ (txt "acceptedTxs", natural p.accepted_txs)
            ∷ (txt "lotteryAttempts", natural p.lottery_attempts)
            ∷ (txt "lotteryWins", natural p.lottery_wins)
            ∷ (txt "lotteryMisses", natural p.lottery_misses)
            ∷ (txt "lotteryNoTicket", natural p.lottery_no_ticket)
            ∷ [])))

  unfoldable pub ready : Peer → Run Response
  ready p = done (
      if is_ready p
      then json 200 (literal ((txt "status", text (txt "ok")) ∷ (txt "ready", boolean true) ∷ []))
      else json 503
          (literal ((txt "status", text (txt "initializing")) ∷ (txt "ready", boolean false) ∷ [])))

  unfoldable pub chain_status_page : Peer → Run Response
  chain_status_page p = do
    idx ← build_explorer_index w p
    let latest = latest_block idx
    average ← average_recent_block_slots w (pos 32) p
    height ← chain_height w p
    committed ← committed_height w p
    done (
        json 200 (
          literal (
            (txt "version", text node_version)
            ∷ (txt "currencySymbol", text (txt "PKN"))
            ∷ (txt "currencyName", text (txt "Pokoin"))
            ∷ (txt "decimals", natural 18)
            ∷ (txt "chainId", number s.evm_chain_id)
            ∷ (txt "networkId", text s.evm_network_id)
            ∷ (txt "height", natural height)
            ∷ (txt "committedHeight", number committed)
            ∷ (txt "finalityDepth", number p.finality_depth)
            ∷ (txt "latestBlockHash", text latest.hash)
            ∷ (txt "latestBlockSlot", number latest.slot)
            ∷ (txt "averageBlockSlots", number average)
            ∷ (txt "peerCount", natural (peer_count p))
            ∷ (txt "mempoolDepth", natural (mempool_size p))
            ∷ (txt "validatorStake", number (validator_stake p))
            ∷ (txt "txCount", natural (tx_history_count p))
            ∷ (txt "acceptedBlocks", natural p.accepted_blocks)
            ∷ (txt "minedBlocks", natural p.mined_blocks)
            ∷ (txt "lotteryAttempts", natural p.lottery_attempts)
            ∷ (txt "lotteryWins", natural p.lottery_wins)
            ∷ (txt "lotteryMisses", natural p.lottery_misses)
            ∷ (txt "lotteryNoTicket", natural p.lottery_no_ticket)
            ∷ (txt "uptimeSeconds", number now.uptime_seconds)
            ∷ [])))

  unfoldable pub chain_supply : Peer → Run Response
  chain_supply p = done (json 200 (supply (supply_snapshot p s.reserved_supply_addresses)))

  unfoldable pub total_supply_text : Peer → Run Response
  total_supply_text p =
      done (plain (itoa (supply_snapshot p s.reserved_supply_addresses).total_supply))

  unfoldable pub circulating_supply_text : Peer → Run Response
  circulating_supply_text p =
      done (plain (itoa (supply_snapshot p s.reserved_supply_addresses).circulating_supply))

  unfoldable pub validators : Peer → Run Response
  validators p = done (
      json 200
        (literal ((txt "validators", items (slice peer_authorization (authorized_peers p))) ∷ [])))

  unfoldable pub bootstrap_page : Peer → Run Response
  bootstrap_page p = done (
      json 200 (
        bootstrap_status (elim s.bootstrap [
          | none ↦ (new_bootstrap_registry [] (pos 0) []).status
          | some registry ↦ registry.status
        ])))

  unfoldable pub metrics : Peer → Run Response
  metrics p = do
    let snapshot = supply_snapshot p s.reserved_supply_addresses
    let active = pos (length (active_authorized_peers p))
    height ← chain_height w p
    committed ← committed_height w p
    average ← average_recent_block_slots w (pos 32) p
    done (
        plain (
          gauge (txt "chain_id") s.evm_chain_id
          ++ gauge (txt "chain_height") (pos height)
          ++ gauge (txt "committed_height") committed
          ++ gauge (txt "finality_depth") p.finality_depth
          ++ gauge (txt "peer_count") (pos (peer_count p))
          ++ gauge (txt "mempool_depth") (pos (mempool_size p))
          ++ gauge (txt "validator_stake") (validator_stake p)
          ++ gauge (txt "validator_count") active
          ++ gauge (txt "connected_validator_count") active
          ++ gauge (txt "total_supply") snapshot.total_supply
          ++ gauge (txt "circulating_supply") snapshot.circulating_supply
          ++ gauge (txt "reserved_supply") snapshot.reserved_supply
          ++ gauge (txt "average_block_slots") average
          ++ gauge (txt "blocks_accepted_total") (pos p.accepted_blocks)
          ++ gauge (txt "blocks_mined_total") (pos p.mined_blocks)
          ++ gauge (txt "lottery_attempts_total") (pos p.lottery_attempts)
          ++ gauge (txt "lottery_wins_total") (pos p.lottery_wins)
          ++ gauge (txt "lottery_misses_total") (pos p.lottery_misses)
          ++ gauge (txt "lottery_no_ticket_total") (pos p.lottery_no_ticket)
          ++ gauge (txt "transactions_accepted_total") (pos p.accepted_txs)
          ++ gauge (txt "ledger_transaction_count") (pos (tx_history_count p))
          ++ gauge (txt "uptime_seconds") now.uptime_seconds))
