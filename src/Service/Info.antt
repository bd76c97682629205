-- ===== src/Service/Info.antt =====
-- peer/runtime_ops.go: chainInfo, the description of the chain and of the node.
use pokoinpos.Prelude.{true, [], ◌∷◌, length}
use pokoinpos.Prelude.Int.{pos}
use pokoinpos.Prelude.Run.{Run, done, ◌>>=◌}
use pokoinpos.Text.{txt}
use pokoinpos.Chain.Block.{miner_block_reward}
use pokoinpos.Explorer.{build_explorer_index}
use pokoinpos.Peer.{Peer, Wire}
use pokoinpos.Peer.Mempool.{mempool_size}
use pokoinpos.Peer.Mine.{average_recent_block_slots}
use pokoinpos.Peer.Sync.{chain_height}
use pokoinpos.Peer.Queries.{
  peer_count, tx_history_count, supply_snapshot, is_ready, active_authorized_peers,
}
use pokoinpos.Peer.Best.{committed_height}
use pokoinpos.Service.{
  text, number, boolean, items, natural, literal, slice, any_explorer_block, peer_authorization,
  supply, Response, json, Moment, OpsServer, node_version, hex_quantity, evm_gas_price,
  evm_gas_limit,
}
use pokoinpos.Service.Pages.{latest_block}

module _ (w : Wire) (s : OpsServer) (now : Moment) where
  unfoldable pub chain_info : Peer → Run Response
  chain_info p = do
    idx ← build_explorer_index w p
    average ← average_recent_block_slots w (pos 32) p
    height ← chain_height w p
    committed ← committed_height w p
    let rows = active_authorized_peers p
    done (
        json 200 (
          literal (
            (
              txt "network",
              literal (
                  (txt "name", text (txt "PokoinPoS"))
                  ∷ (txt "shortName", text (txt "pokoinpos"))
                  ∷ (txt "chainId", number s.evm_chain_id)
                  ∷ (txt "networkId", text s.evm_network_id)
                  ∷ (txt "slip44", natural 60)
                  ∷ (txt "networkType", text (txt "permissioned-proof-of-stake"))
                  ∷ (txt "environment", text (txt "mainnet"))
                  ∷ (txt "public", boolean true)
                  ∷ (txt "evmCompatible", boolean true)
                  ∷ (txt "consensus", text (txt "permissioned-pos"))
                  ∷ (txt "clientVersion", text node_version)
                  ∷ (txt "nativeAsset", text (txt "PKN"))
                  ∷ (txt "canonicalRpcPath", text (txt "/rpc"))
                  ∷ []),
            )
            ∷ (
              txt "nativeCurrency",
              literal (
                  (txt "name", text (txt "Pokoin"))
                  ∷ (txt "symbol", text (txt "PKN"))
                  ∷ (txt "decimals", natural 18)
                  ∷ []),
            )
            ∷ (
              txt "rpc",
              literal (
                  (txt "http", text (txt "https://rpc.pokoin.com/rpc"))
                  ∷ (txt "chainIdHex", text (hex_quantity s.evm_chain_id))
                  ∷ (txt "gasPriceWei", text evm_gas_price)
                  ∷ (txt "gasLimit", text evm_gas_limit)
                  ∷ []),
            )
            ∷ (
              txt "explorer",
              literal (
                  (txt "baseUrl", text (txt "https://explorer.pokoin.com"))
                  ∷ (txt "blocksPath", text (txt "/explorer/blocks"))
                  ∷ (txt "transactionsPath", text (txt "/explorer/tx/{hash}"))
                  ∷ (txt "addressesPath", text (txt "/explorer/address/{address}"))
                  ∷ []),
            )
            ∷ (
              txt "status",
              literal (
                  (txt "ready", boolean (is_ready p))
                  ∷ (txt "height", natural height)
                  ∷ (txt "committedHeight", number committed)
                  ∷ (txt "finalityDepth", number p.finality_depth)
                  ∷ (txt "peerCount", natural (peer_count p))
                  ∷ (txt "mempoolDepth", natural (mempool_size p))
                  ∷ (txt "txCount", natural (tx_history_count p))
                  ∷ (txt "uptimeSeconds", number now.uptime_seconds)
                  ∷ (txt "averageBlockSlots", number average)
                  ∷ []),
            )
            ∷ (txt "supply", supply (supply_snapshot p s.reserved_supply_addresses))
            ∷ (
              txt "consensus",
              literal (
                  (txt "type", text (txt "permissioned-proof-of-stake"))
                  ∷ (txt "slotSeconds", natural 1)
                  ∷ (txt "finalityDepth", number p.finality_depth)
                  ∷ (txt "validatorCount", natural (length rows))
                  ∷ (txt "connectedValidatorCount", natural (length rows))
                  ∷ (txt "blockReward", number miner_block_reward)
                  ∷ []),
            )
            ∷ (txt "latestBlock", any_explorer_block (latest_block idx))
            ∷ (txt "validators", items (slice peer_authorization rows))
            ∷ (
              txt "integrations",
              literal (
                  (
                    txt "totalSupplyText",
                    text (txt "https://rpc.pokoin.com/chain/supply/total.txt"),
                  )
                  ∷ (
                    txt "circulatingSupplyText",
                    text (txt "https://rpc.pokoin.com/chain/supply/circulating.txt"),
                  )
                  ∷ (txt "prometheusMetrics", text (txt "https://rpc.pokoin.com/metrics"))
                  ∷ (txt "endpointCatalog", text (txt "https://rpc.pokoin.com/endpoints"))
                  ∷ []),
            )
            ∷ [])))
