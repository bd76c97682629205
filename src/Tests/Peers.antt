-- ===== src/Tests/Peers.antt =====
-- The theorems on a peer, at concrete inputs.
use pokoinpos.Prelude.{◌≡◌, refl, true, false, some, ◌++◌, inl, inr}
use pokoinpos.Prelude.Int.{
  pos, add_int, div_int, mul_int, quotient, sub_int, to_uint64, wrap, ◌*ℤ◌, ◌+ℤ◌, ◌-ℤ◌,
}
use pokoinpos.Prelude.Run.{done, After-done}
use pokoinpos.Text.{
  txt, text_eq, equal_fold, has_prefix, replace_byte, split_byte, text_ltb, to_lower, to_upper,
  trim_prefix, trim_space,
}
use pokoinpos.GoMap.{at, delete, insert, lookup}
use pokoinpos.Peer.{Peer, no_history, new_peer}
use pokoinpos.Peer.Flood.{
  flood_network, outbound, connection_ids, add_received_flood_message, connection, contains,
  flood_to, has_connection, has_seen_message, remember, send,
}
use pokoinpos.Peer.Flood.Once.{flood_network_once}
use pokoinpos.Peer.Flood.Reach.{copies, targets, flood_network-targets}
use pokoinpos.Peer.Receive.{
  handle_block, handle_transaction, ask_for_parent, drop_included, has_block_hash, include_block,
  lists_hash, settle_block, take_block,
}
use pokoinpos.Peer.Receive.Kept.{IsKept, forward-IsKept}
use pokoinpos.Peer.Receive.Once.{handle_block_once, handle_transaction_once}
use pokoinpos.Peer.Connect.{
  configure_pos, addresses_from_connect_payload, dial_joined, handle_join,
  validator_from_connect_payload,
}
use pokoinpos.Peer.Handle.{
  kind_of, on_message, forward, forward_if, handle_kind, is_delivered, pong,
}
use pokoinpos.Peer.Sync.Install.{
  handle_chain_sync_response, adopt_remote_chain, install, install_from_ancestor,
  install_full_synced_chain, install_response, install_spliced, install_suffix,
  install_synced_overlap, install_synced_suffix, is_contiguous, last_common, local_hashes,
  same_genesis_content,
}
use pokoinpos.Peer.Committed.{IsCommitted}
use pokoinpos.Peer.Committed.Synced.{Synced, handle_chain_sync_response-Synced}
use pokoinpos.Peer.Committed.Reached.{IsPosKind, Reached-IsCommitted, configured, received}
use pokoinpos.Tests.Network.{wire, node, message, miner, settings, peer_of, returned}
use pokoinpos.Chain.Tree.{
  add_node, add_nodes, best_height, better_leaf, calculate_depths, canonical_blocks, cut_rollback,
  fold_leaves, get_blocks_from_longest_branch, get_genesis_hash, get_leaf_hash, max_depth_of,
  replace_blocks, walk,
}
use pokoinpos.Chain.AddBlock.{
  accepts, add_block, all_apply, draw_matches, draws_and_wins, effective_hardness_for_block,
  entry_hardness, expected_draw, new_blockchain_with_genesis, plays, plays_genesis,
  transactions_valid, wins_and_applies,
}
use pokoinpos.Crypto.{
  big_int_bytes, bytes_to_big_int, encrypt, exp_mod, public_key_from_account_name, rsa_verify,
  safe_encode, verify_signature,
}
use pokoinpos.Transaction.AmmActions.{
  accounting_refused, amm_action, amm_add_liquidity, amm_checked, amm_create_pool, amm_swap,
  apply_amm_transaction, asset_credit, asset_debit, deposit_liquidity, finish, swap_on, swap_paid,
}
use pokoinpos.Chain.State.{
  build_ledger_at_hash, build_ledger_from_blocks, ledger_from_blockchain, replay_block,
  replay_blocks, replay_transactions, reward_miner,
}
use pokoinpos.Transaction.Normal.{
  normal_amm, normal_names, normal_nft, normalize_amm, valid_action, valid_amm, valid_nft_mint,
  valid_nft_transfer,
}
use pokoinpos.Transaction.Verify.{
  decode_evm, marshal_content_for_signature, signed_fields, verify, verify_evm, verify_native,
}
use pokoinpos.Evm.{
  add_balance, add_log, add_refund, create_account, evm_balance_from_string, nth,
  revert_to_snapshot, run_calls, self_destruct, set_code, set_nonce, set_state, snapshot, step,
  sub_balance, sub_refund,
}
use pokoinpos.Peer.Mempool.{
  add_pending, handle_pos_transaction, is_same_slot, judge, prune_invalid_mempool, prune_pass,
  prune_rounds, share_payloads, refuses_amount,
}
use pokoinpos.Chain.Block.{
  block_authentic, compute_lottery_draw, compute_lottery_draw_from_proof, decode_block_transactions,
  decode_genesis_from_meta, get_block_hash, hash_text, lottery_proof_message, marshal_block,
  marshal_for_signature, verify_lottery_proof, wins_lottery,
}
use pokoinpos.Peer.Queries.{balance_of, dynamic_hardness_fork_height}
use pokoinpos.Chain.Hardness.{
  average_recent_slot_interval, clamp_hardness, effective_dynamic_hardness,
  effective_hardness_for_mining, intervals,
}
use pokoinpos.Tx.{is_amm, is_evm, is_mint, is_nft, is_nft_mint, is_nft_transfer}
use pokoinpos.Transaction.Apply.{
  apply_evm_contract_transaction, contract_done, contract_value, evm_run, mint_branch, mint_coins,
  nft_mint_branch, nft_transfer_branch, transaction, transfer_branch, transfer_coins,
  transfer_verified,
}
use pokoinpos.Base64.{decode, encode}
use pokoinpos.Peer.Sync.{
  can_adopt_remote_genesis, chain_status, genesis_content_hash, last_of, request_chain_sync,
  status_of,
}
use pokoinpos.Ledger.{
  can_debit_asset, credit_asset, debit_asset, is_native_validator_account, is_operator,
  is_validator, lottery_tickets, mark_validator, tally_stakes, tickets_of, tx_count,
}
use pokoinpos.Amm.{apply_swap, quote_reserves, quote_swap, reserves_for}
use pokoinpos.GoMap.Sum.{sum_by}
use pokoinpos.Text.Hex.{big_int_text, big_int_value, hex_encode}
use pokoinpos.Peer.Addresses.{sort_by, unique_peer_addresses}
use pokoinpos.Transaction.Steps.{mint_nft, move_balance, transfer_nft}
use pokoinpos.Assets.{
  nft_key, normalize_asset, normalize_asset_account, normalize_nft_account, normalize_nft_id,
  normalize_pool_id, pool_id, same_nft_account,
}
use pokoinpos.Genesis.{
  apply_default_dynamic_hardness_config, initialize_balances, initialize_from_genesis,
}
use pokoinpos.Text.Decimal.{digits_from, itoa}
use pokoinpos.Transaction.Make.{has_recorded_transaction}

abbrev flooded : Peer
flooded = returned (flood_network message node)

flooded_once : flood_network message node ≡ done flooded
unfolding lookup contains flood_network flood_to new_peer text_eq
flooded_once = refl

flood_network_once_example : flood_network message flooded ≡ done flooded
flood_network_once_example = flood_network_once message message node refl flooded_once

self_entry : text_eq (txt "n") (txt "n") ≡ true
unfolding text_eq
self_entry = refl

unsent : (at no_history (txt "m") node.msg_history).is_sent ≡ false
unfolding lookup new_peer
unsent = refl

flood_network-targets_example :
    (q : Peer) × (flood_network message node ≡ done q)
    × (q.outbox
        ≡ node.outbox
          ++ copies (outbound node message) (
              targets
                (txt "n")
                (at no_history (txt "m") node.msg_history).received_from
                (connection_ids node)))
flood_network-targets_example =
    flood_network-targets message node (inl self_entry, (inr (1, refl), (inr (2, refl), tt))) unsent

abbrev with_block : Peer
with_block = peer_of (handle_block wire (pos 3) message node)

block_taken : handle_block wire (pos 3) message node ≡ done (true, with_block)
unfolding decode encode accepts add_block all_apply draw_matches draws_and_wins
    effective_hardness_for_block entry_hardness expected_draw plays plays_genesis transactions_valid
    wins_and_applies block_authentic compute_lottery_draw decode_block_transactions
    decode_genesis_from_meta get_block_hash hash_text marshal_block marshal_for_signature
    wins_lottery clamp_hardness effective_hardness_for_mining build_ledger_at_hash
    build_ledger_from_blocks ledger_from_blockchain replay_block replay_blocks replay_transactions
    add_node add_nodes better_leaf calculate_depths cut_rollback fold_leaves
    get_blocks_from_longest_branch get_genesis_hash get_leaf_hash walk verify_signature
    apply_default_dynamic_hardness_config initialize_balances initialize_from_genesis insert lookup
    is_native_validator_account is_validator lottery_tickets tally_stakes tickets_of
    has_seen_message prune_invalid_mempool prune_pass prune_rounds share_payloads drop_included
    handle_block include_block settle_block take_block new_peer add_int div_int mul_int to_uint64
    itoa equal_fold has_prefix transaction transfer_branch decode_evm verify verify_evm is_amm
    is_evm is_mint is_nft_mint is_nft_transfer
block_taken = refl

-- The node after OnMessage has forwarded the block.
abbrev with_forwarded : Peer
with_forwarded = returned (forward message with_block)

block_forwarded : forward message with_block ≡ done with_forwarded
unfolding decode encode accepts add_block all_apply draw_matches draws_and_wins
    effective_hardness_for_block entry_hardness expected_draw plays plays_genesis transactions_valid
    wins_and_applies block_authentic compute_lottery_draw decode_block_transactions
    decode_genesis_from_meta get_block_hash hash_text marshal_block marshal_for_signature
    wins_lottery clamp_hardness effective_hardness_for_mining build_ledger_at_hash
    build_ledger_from_blocks ledger_from_blockchain replay_block replay_blocks replay_transactions
    add_node add_nodes better_leaf calculate_depths cut_rollback fold_leaves
    get_blocks_from_longest_branch get_genesis_hash get_leaf_hash walk verify_signature
    apply_default_dynamic_hardness_config initialize_balances initialize_from_genesis insert lookup
    is_native_validator_account is_validator lottery_tickets tally_stakes tickets_of
    has_seen_message prune_invalid_mempool prune_pass prune_rounds share_payloads drop_included
    handle_block include_block settle_block take_block new_peer add_int div_int mul_int to_uint64
    itoa equal_fold has_prefix transaction transfer_branch decode_evm verify verify_evm is_amm
    is_evm is_mint is_nft_mint is_nft_transfer forward add_received_flood_message flood_network
    flood_to contains text_eq is_delivered remember
block_forwarded = refl

handle_block_once_example :
    handle_block wire (pos 4) message with_forwarded ≡ done (false, with_forwarded)
handle_block_once_example =
    handle_block_once wire (pos 3) (pos 4) message message node with_block with_forwarded
      block_taken refl
      (After-done (IsKept with_block) (forward-IsKept message with_block) block_forwarded)

abbrev with_transfer : Peer
with_transfer = peer_of (handle_transaction wire message node)

transfer_taken : handle_transaction wire message node ≡ done (true, with_transfer)
unfolding lookup has_seen_message handle_transaction new_peer ◌*ℤ◌ equal_fold has_prefix
    apply_evm_contract_transaction transaction transfer_branch transfer_verified
    has_recorded_transaction decode_evm verify verify_evm is_amm is_evm is_mint is_nft_mint
    is_nft_transfer
transfer_taken = refl

handle_transaction_once_example :
    handle_transaction wire message with_transfer ≡ done (false, with_transfer)
handle_transaction_once_example =
    handle_transaction_once wire message message node with_transfer transfer_taken refl

abbrev synced : Peer
synced = peer_of (handle_chain_sync_response wire (pos 3) message node)

response_installed : handle_chain_sync_response wire (pos 3) message node ≡ done (true, synced)
unfolding apply_swap quote_reserves quote_swap reserves_for nft_key normalize_asset
    normalize_asset_account normalize_nft_account normalize_nft_id normalize_pool_id pool_id
    same_nft_account decode encode block_authentic decode_block_transactions
    decode_genesis_from_meta get_block_hash hash_text marshal_block marshal_for_signature
    build_ledger_from_blocks ledger_from_blockchain replay_block replay_blocks replay_transactions
    reward_miner add_node add_nodes best_height better_leaf calculate_depths canonical_blocks
    cut_rollback fold_leaves get_blocks_from_longest_branch get_leaf_hash max_depth_of
    replace_blocks walk bytes_to_big_int encrypt exp_mod public_key_from_account_name rsa_verify
    verify_signature add_balance add_log add_refund create_account evm_balance_from_string
    pokoinpos.Evm.get_balance nth revert_to_snapshot run_calls self_destruct set_code set_nonce
    set_state snapshot step sub_balance sub_refund initialize_balances initialize_from_genesis
    insert lookup can_debit_asset credit_asset debit_asset pokoinpos.Ledger.get_balance
    is_native_validator_account is_operator mark_validator tx_count connection send balance_of
    adopt_remote_chain handle_chain_sync_response install install_from_ancestor
    install_full_synced_chain install_response install_spliced install_suffix install_synced_overlap
    install_synced_suffix is_contiguous last_common local_hashes same_genesis_content
    can_adopt_remote_genesis chain_status genesis_content_hash last_of request_chain_sync status_of
    new_peer add_int div_int mul_int quotient sub_int wrap ◌*ℤ◌ ◌+ℤ◌ ◌-ℤ◌ digits_from itoa
    big_int_text big_int_value hex_encode equal_fold has_prefix replace_byte split_byte text_eq
    text_ltb to_lower to_upper trim_prefix trim_space accounting_refused amm_action
    amm_add_liquidity
response_installed = refl

handle_chain_sync_response-Synced_example : Synced wire node (true, synced)
handle_chain_sync_response-Synced_example =
    handle_chain_sync_response-Synced wire (pos 3) message node response_installed

abbrev pub fresh_peer : Peer
fresh_peer = returned (configure_pos wire settings (some miner) node)

pub node_configured : configure_pos wire settings (some miner) node ≡ done fresh_peer
unfolding apply_swap quote_reserves quote_swap reserves_for nft_key normalize_asset
    normalize_asset_account normalize_nft_account normalize_nft_id normalize_pool_id pool_id
    same_nft_account decode encode new_blockchain_with_genesis block_authentic
    decode_block_transactions decode_genesis_from_meta get_block_hash hash_text marshal_block
    marshal_for_signature build_ledger_from_blocks ledger_from_blockchain replay_block replay_blocks
    replay_transactions reward_miner add_node add_nodes better_leaf calculate_depths cut_rollback
    fold_leaves get_blocks_from_longest_branch get_leaf_hash walk big_int_bytes bytes_to_big_int
    encrypt exp_mod public_key_from_account_name rsa_verify safe_encode verify_signature add_balance
    add_log add_refund create_account evm_balance_from_string pokoinpos.Evm.get_balance nth
    revert_to_snapshot run_calls self_destruct set_code set_nonce set_state snapshot step
    sub_balance sub_refund initialize_balances initialize_from_genesis insert lookup can_debit_asset
    credit_asset debit_asset pokoinpos.Ledger.get_balance is_native_validator_account is_operator
    mark_validator configure_pos balance_of new_peer add_int div_int mul_int quotient sub_int wrap
    ◌*ℤ◌ ◌+ℤ◌ ◌-ℤ◌ digits_from itoa big_int_text big_int_value hex_encode equal_fold has_prefix
    replace_byte split_byte text_eq text_ltb to_lower to_upper trim_prefix trim_space
    accounting_refused amm_action amm_add_liquidity amm_checked amm_create_pool amm_swap
    apply_amm_transaction asset_credit asset_debit deposit_liquidity finish swap_on swap_paid
    apply_evm_contract_transaction contract_done contract_value evm_run mint_branch mint_coins
    nft_mint_branch nft_transfer_branch transaction transfer_branch transfer_coins transfer_verified
    normal_amm normal_names normal_nft normalize_amm valid_action valid_amm valid_nft_mint
    valid_nft_transfer mint_nft move_balance transfer_nft decode_evm marshal_content_for_signature
    signed_fields verify verify_evm verify_native is_amm is_evm is_mint is_nft is_nft_mint
    is_nft_transfer
node_configured = refl

abbrev extended : Peer
extended = returned (on_message wire (pos 3) (txt "a") message fresh_peer)

block_received : on_message wire (pos 3) (txt "a") message fresh_peer ≡ done extended
unfolding decode encode accepts add_block all_apply draw_matches draws_and_wins
    effective_hardness_for_block entry_hardness expected_draw new_blockchain_with_genesis plays
    plays_genesis transactions_valid wins_and_applies block_authentic compute_lottery_draw
    compute_lottery_draw_from_proof decode_block_transactions decode_genesis_from_meta
    get_block_hash hash_text lottery_proof_message marshal_block marshal_for_signature
    verify_lottery_proof wins_lottery average_recent_slot_interval clamp_hardness
    effective_dynamic_hardness effective_hardness_for_mining intervals build_ledger_at_hash
    build_ledger_from_blocks ledger_from_blockchain replay_block replay_blocks replay_transactions
    reward_miner add_node add_nodes best_height better_leaf calculate_depths canonical_blocks
    cut_rollback fold_leaves get_blocks_from_longest_branch get_genesis_hash get_leaf_hash
    max_depth_of replace_blocks walk big_int_bytes bytes_to_big_int encrypt verify_signature
    add_balance add_log add_refund sub_balance sub_refund apply_default_dynamic_hardness_config
    initialize_balances initialize_from_genesis sum_by delete insert lookup can_debit_asset
    credit_asset debit_asset pokoinpos.Ledger.get_balance is_native_validator_account is_operator
    is_validator lottery_tickets mark_validator tally_stakes tickets_of sort_by
    unique_peer_addresses addresses_from_connect_payload configure_pos dial_joined handle_join
    validator_from_connect_payload add_received_flood_message connection contains flood_network
    flood_to has_connection has_seen_message remember send forward forward_if handle_kind
    is_delivered kind_of on_message pong add_pending handle_pos_transaction is_same_slot judge
    prune_invalid_mempool prune_pass prune_rounds share_payloads refuses_amount balance_of
    dynamic_hardness_fork_height ask_for_parent drop_included handle_block handle_transaction
    has_block_hash include_block lists_hash settle_block take_block adopt_remote_chain
    handle_chain_sync_response status_of new_peer add_int div_int mul_int quotient sub_int to_uint64
    digits_from itoa big_int_text big_int_value hex_encode equal_fold has_prefix replace_byte
    transaction transfer_branch transfer_coins transfer_verified decode_evm
    marshal_content_for_signature signed_fields verify verify_evm verify_native is_amm is_evm
    is_mint is_nft is_nft_mint is_nft_transfer
block_received = refl

is_pos : IsPosKind (kind_of (txt "Block"))
unfolding apply_swap quote_reserves quote_swap reserves_for nft_key normalize_asset
    normalize_asset_account normalize_nft_account normalize_nft_id normalize_pool_id pool_id
    same_nft_account decode bytes_to_big_int encrypt exp_mod public_key_from_account_name rsa_verify
    verify_signature add_balance add_log add_refund create_account evm_balance_from_string
    pokoinpos.Evm.get_balance nth revert_to_snapshot run_calls self_destruct set_code set_nonce
    set_state snapshot step sub_balance sub_refund insert lookup can_debit_asset credit_asset
    debit_asset pokoinpos.Ledger.get_balance is_native_validator_account is_operator kind_of
    balance_of new_peer add_int div_int mul_int quotient sub_int wrap ◌*ℤ◌ ◌+ℤ◌ ◌-ℤ◌ digits_from
    itoa big_int_text big_int_value hex_encode equal_fold has_prefix replace_byte split_byte text_eq
    text_ltb to_lower to_upper trim_prefix trim_space accounting_refused amm_action
    amm_add_liquidity amm_checked amm_create_pool amm_swap apply_amm_transaction asset_credit
    asset_debit deposit_liquidity finish swap_on swap_paid apply_evm_contract_transaction
    contract_done contract_value evm_run mint_branch mint_coins nft_mint_branch nft_transfer_branch
    transaction transfer_branch transfer_coins transfer_verified normal_amm normal_names normal_nft
    normalize_amm valid_action valid_amm valid_nft_mint valid_nft_transfer mint_nft move_balance
    transfer_nft decode_evm marshal_content_for_signature signed_fields verify verify_evm
    verify_native is_amm is_evm is_mint is_nft is_nft_mint is_nft_transfer
is_pos = tt

Reached-IsCommitted_example : IsCommitted wire extended
Reached-IsCommitted_example = Reached-IsCommitted wire extended (
    received fresh_peer extended (pos 3) (txt "a") message
      (configured node fresh_peer settings (some miner) node_configured) is_pos block_received)
