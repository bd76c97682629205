-- ===== src/Tests/Mempools.antt =====
-- The theorems on the mempool, the mining and the payouts, at concrete inputs.
use pokoinpos.Prelude.{
  Bool, true, false, some, none, Option, inl, [], ◌∷◌, ◌≡◌, refl, ◌+◌, length, arith,
}
use pokoinpos.Prelude.Int.{
  ℤ, pos, sub_int, ◌≤ℤ◌, add_int, div_int, mul_int, quotient, to_uint64, wrap, ◌*ℤ◌, ◌+ℤ◌, ◌-ℤ◌,
}
use pokoinpos.Prelude.Run.{Run, done}
use pokoinpos.Text.{
  txt, equal_fold, has_prefix, replace_byte, split_byte, text_eq, text_ltb, to_lower, to_upper,
  trim_prefix, trim_space,
}
use pokoinpos.Tx.{SignedTransaction, is_amm, is_evm, is_mint, is_nft, is_nft_mint, is_nft_transfer}
use pokoinpos.Ledger.{
  make_ledger, can_debit_asset, credit_asset, debit_asset, is_native_validator_account, is_operator,
  is_validator, lottery_tickets, mark_validator, tally_stakes, tickets_of,
}
use pokoinpos.Peer.{Wire, Peer, new_peer}
use pokoinpos.Peer.Receive.{
  handle_block, apply_block, drop_included, include_block, settle_block, take_block,
}
use pokoinpos.Peer.Mempool.{
  handle_pos_transaction, prune_rounds, Kept, Tried, share_payloads, add_pending, admit,
  best_ledger_would_accept, drop_same_slot, evict, is_same_slot, judge, prune_invalid_mempool,
  prune_pass, refuses_amount,
}
use pokoinpos.Peer.Mempool.Slots.{OneSlot}
use pokoinpos.Peer.Mempool.Orderly.{handle_pos_transaction-OneSlot}
use pokoinpos.Peer.Mempool.Settled.{handle_block-included}
use pokoinpos.Peer.Mempool.Prune.{Runs, prune_rounds-returns}
use pokoinpos.Ledger.{Ledger}
use pokoinpos.Chain.Block.{
  Block, block_authentic, compute_lottery_draw, compute_lottery_draw_from_proof,
  decode_block_transactions, decode_genesis_from_meta, encode_block_transactions, get_block_hash,
  hash_text, lottery_proof_message, marshal_block, marshal_for_signature, new_block,
  new_candidate_block, sign_block, sign_lottery_proof, verify_lottery_proof, wins_lottery,
}
use pokoinpos.Peer.Mine.{
  mine_one_slot, block_message, build_candidate, draw_lottery, optimistic_lottery_hardness, publish,
  select_transactions, try_candidate, validator_stake,
}
use pokoinpos.Peer.Mine.Accepted.{Extends, mine_one_slot-Extends}
use pokoinpos.Config.{NodeConfig, load_node_config_from_env}
use pokoinpos.Node.{
  mine_attempts_for_network, maybe_queue_monthly_payout, is_payout_early, payout_id,
}
use pokoinpos.Node.Schedule.{mine_attempts_bounds, payout_once}
use pokoinpos.Tests.Data.{wallet_payment}
use pokoinpos.Tests.Network.{bare, wire, node, next_block, message, miner_name, peer_of}
use pokoinpos.Chain.Tree.{
  add_node, add_nodes, best_leaf_hash, better_leaf, calculate_depths, canonical_blocks,
  cut_rollback, fold_leaves, get_blocks_from_longest_branch, get_genesis_hash, get_leaf_hash, walk,
}
use pokoinpos.Chain.AddBlock.{
  accepts, add_block, all_apply, draw_matches, draws_and_wins, effective_hardness_for_block,
  entry_hardness, expected_draw, plays, plays_genesis, transactions_valid, wins_and_applies,
}
use pokoinpos.Crypto.{
  big_int_bytes, bytes_to_big_int, decrypt, encrypt, exp_mod, public_key_from_account_name,
  rsa_sign, rsa_verify, safe_encode, verify_signature,
}
use pokoinpos.Transaction.AmmActions.{
  accounting_refused, amm_action, amm_add_liquidity, amm_checked, amm_create_pool, amm_swap,
  apply_amm_transaction, asset_credit, asset_debit, deposit_liquidity, finish, swap_on, swap_paid,
}
use pokoinpos.Chain.State.{
  build_ledger_at_hash, build_ledger_from_blocks, ledger_from_blockchain, replay_block,
  replay_blocks, replay_transactions, reward_miner,
}
use pokoinpos.Transaction.Normal.{
  normal_amm, normal_names, normal_nft, normalize_amm, valid_action, valid_amm, valid_nft_mint,
  valid_nft_transfer,
}
use pokoinpos.Transaction.Verify.{
  decode_evm, marshal_content_for_signature, signed_fields, verify, verify_evm, verify_native,
}
use pokoinpos.Evm.{
  add_balance, add_log, add_refund, create_account, evm_balance_from_string, nth,
  revert_to_snapshot, run_calls, self_destruct, set_code, set_nonce, set_state, snapshot, step,
  sub_balance, sub_refund,
}
use pokoinpos.Peer.Make.{
  flood_made, flood_pos_transaction, flood_validator_withdraw_transaction, is_evm_address, make_if,
}
use pokoinpos.Peer.Queries.{balance_of, dynamic_hardness_fork_height}
use pokoinpos.Chain.Hardness.{
  average_recent_slot_interval, clamp_hardness, effective_dynamic_hardness,
  effective_hardness_for_mining, intervals,
}
use pokoinpos.Transaction.Apply.{
  apply_evm_contract_transaction, contract_done, contract_value, evm_run, mint_branch, mint_coins,
  nft_mint_branch, nft_transfer_branch, transaction, transfer_branch, transfer_coins,
  transfer_verified,
}
use pokoinpos.Peer.Flood.{contains, flood_network, flood_to, has_seen_message, remember}
use pokoinpos.Base64.{decode, encode}
use pokoinpos.Amm.{apply_swap, quote_reserves, quote_swap, reserves_for}
use pokoinpos.GoMap.{has, delete, insert, lookup}
use pokoinpos.Transaction.Make.{new_signed_transaction, sign_transaction}
use pokoinpos.GoMap.Sum.{sum_by}
use pokoinpos.Text.Hex.{big_int_text, big_int_value, hex_encode}
use pokoinpos.Transaction.Steps.{mint_nft, move_balance, transfer_nft}
use pokoinpos.Assets.{
  nft_key, normalize_asset, normalize_asset_account, normalize_nft_account, normalize_nft_id,
  normalize_pool_id, pool_id, same_nft_account,
}
use pokoinpos.Genesis.{
  apply_default_dynamic_hardness_config, initialize_balances, initialize_from_genesis,
}
use pokoinpos.Text.Decimal.{digits_from, itoa}

abbrev flag_of : Run (Bool × Peer) → Bool
flag_of (done r) = r.0
flag_of other = false

abbrev replaced : Peer
replaced = peer_of (handle_pos_transaction wire message node)

pending_replaced : handle_pos_transaction wire message node ≡ done (true, replaced)
unfolding lookup has_seen_message admit handle_pos_transaction judge refuses_amount new_peer mul_int
    equal_fold has_prefix decode_evm verify verify_evm is_amm is_evm
pending_replaced = refl

handle_pos_transaction-OneSlot_example : OneSlot replaced.mempool
handle_pos_transaction-OneSlot_example =
    handle_pos_transaction-OneSlot wire message node replaced true (tt, tt) pending_replaced

-- A block with a payment that is pending.
abbrev full_block : Block
full_block = record next_block { meta_data = txt "x" }

abbrev full_wire : Wire
full_wire = record wire {
  platform = record wire.platform { unmarshal_transactions = λ s. some (wallet_payment ∷ []) };
  unmarshal_block = λ s. some full_block;
}

abbrev payer : Peer
payer = record node { mempool = (wallet_payment.id, wallet_payment) ∷ [] }

abbrev with_full : Peer
with_full = peer_of (handle_block full_wire (pos 3) message payer)

full_taken : handle_block full_wire (pos 3) message payer ≡ done (true, with_full)
unfolding decode encode accepts add_block all_apply draw_matches draws_and_wins
    effective_hardness_for_block entry_hardness expected_draw plays plays_genesis transactions_valid
    wins_and_applies block_authentic compute_lottery_draw decode_block_transactions
    decode_genesis_from_meta get_block_hash hash_text marshal_block marshal_for_signature
    wins_lottery clamp_hardness effective_hardness_for_mining build_ledger_at_hash
    build_ledger_from_blocks ledger_from_blockchain replay_block replay_blocks replay_transactions
    add_node add_nodes better_leaf calculate_depths cut_rollback fold_leaves
    get_blocks_from_longest_branch get_genesis_hash get_leaf_hash walk verify_signature
    apply_default_dynamic_hardness_config initialize_balances initialize_from_genesis insert lookup
    is_native_validator_account is_validator lottery_tickets tally_stakes tickets_of
    has_seen_message prune_invalid_mempool prune_pass prune_rounds share_payloads drop_included
    handle_block include_block settle_block take_block new_peer add_int div_int mul_int to_uint64
    itoa equal_fold has_prefix transaction transfer_branch decode_evm verify verify_evm is_amm
    is_evm is_mint is_nft_mint is_nft_transfer transfer_verified apply_evm_contract_transaction
    delete
full_taken = refl

full_decoded :
    decode_block_transactions full_wire.platform full_block.meta_data ≡ some (wallet_payment ∷ [])
unfolding decode_block_transactions decode
full_decoded = refl

handle_block-included_example : has wallet_payment.id with_full.mempool ≡ false
handle_block-included_example =
    handle_block-included full_wire (pos 3) message full_block wallet_payment (wallet_payment ∷ [])
      payer with_full full_taken refl full_decoded (inl refl)

-- Two transactions that no ledger takes.
abbrev no_token : SignedTransaction
no_token = record wallet_payment { id = txt "t1"; kind = txt "nft_mint" }

abbrev no_transfer : SignedTransaction
no_transfer = record wallet_payment { id = txt "t2"; kind = txt "nft_transfer" }

no_token-Runs : Runs wire no_token
unfolding has_prefix text_eq nft_mint_branch transaction valid_nft_mint is_amm is_nft_mint
no_token-Runs = λ l. (_, refl)

no_transfer-Runs : Runs wire no_transfer
unfolding has_prefix text_eq nft_transfer_branch transaction valid_nft_transfer is_amm is_nft_mint
    is_nft_transfer
no_transfer-Runs = λ l. (_, refl)

prune_rounds-returns_example :
    (r : Kept × Tried) × (prune_rounds wire
        (length (no_token ∷ no_transfer ∷ []) + 1)
        (no_token ∷ no_transfer ∷ [])
        ([], (node.ledger, node.mempool))
      ≡ done r)
prune_rounds-returns_example =
    prune_rounds-returns wire (no_token ∷ no_transfer ∷ []) [] (node.ledger, node.mempool)
      (no_token-Runs, (no_transfer-Runs, tt))

abbrev schedule : NodeConfig
schedule = record (load_node_config_from_env bare).0 {
  reward_payout_address = txt "0xaaaaaaaaaaaaaaaaaaaaaaaaaaaaaaaaaaaaaaaa";
  base_mine_attempts_per_tick = pos 2;
  max_mine_attempts_per_tick = pos 8;
  mine_attempts_per_pending_tx = pos 3;
}

mine_attempts_bounds_example :
    (pos 2 ≤ℤ mine_attempts_for_network (pos 40) (pos 3) schedule)
    × (mine_attempts_for_network (pos 40) (pos 3) schedule ≤ℤ pos 8)
mine_attempts_bounds_example = mine_attempts_bounds (pos 40) (pos 3) schedule (omega arith)

-- The node with a balance of its own.
abbrev earner : Peer
earner = record node {
  ledger = record make_ledger { accounts = (miner_name, pos 100) ∷ [] };
  mempool = [];
}

abbrev paid_of : Run (Option SignedTransaction × ℤ × Peer) → Option SignedTransaction × ℤ × Peer
paid_of (done r) = r
paid_of other = (none, pos 0, node)

abbrev outcome : Option SignedTransaction × ℤ × Peer
outcome = paid_of (maybe_queue_monthly_payout wire (pos 5) schedule (pos 0) earner)

abbrev the : Option SignedTransaction → SignedTransaction
the (some t) = t
the none = wallet_payment

payout_made :
    maybe_queue_monthly_payout wire (pos 5) schedule (pos 0) earner
    ≡ done (some (the outcome.0), outcome.1, outcome.2)
unfolding apply_swap quote_reserves quote_swap reserves_for nft_key normalize_asset
    normalize_asset_account normalize_nft_account normalize_nft_id normalize_pool_id pool_id
    same_nft_account decode encode block_authentic decode_block_transactions
    decode_genesis_from_meta get_block_hash hash_text marshal_block marshal_for_signature
    build_ledger_from_blocks ledger_from_blockchain replay_block replay_blocks replay_transactions
    reward_miner add_node add_nodes better_leaf calculate_depths cut_rollback fold_leaves
    get_blocks_from_longest_branch get_leaf_hash walk big_int_bytes bytes_to_big_int decrypt encrypt
    exp_mod public_key_from_account_name rsa_sign rsa_verify safe_encode verify_signature
    add_balance add_log add_refund create_account evm_balance_from_string pokoinpos.Evm.get_balance
    nth revert_to_snapshot run_calls self_destruct set_code set_nonce set_state snapshot step
    sub_balance sub_refund initialize_balances initialize_from_genesis insert lookup can_debit_asset
    credit_asset debit_asset pokoinpos.Ledger.get_balance is_native_validator_account is_operator
    mark_validator is_payout_early maybe_queue_monthly_payout payout_id contains flood_network
    flood_to has_seen_message remember flood_made flood_pos_transaction
    flood_validator_withdraw_transaction is_evm_address make_if add_pending admit
    best_ledger_would_accept drop_same_slot handle_pos_transaction is_same_slot judge refuses_amount
    validator_stake balance_of new_peer add_int div_int mul_int quotient sub_int wrap ◌*ℤ◌ ◌+ℤ◌ ◌-ℤ◌
    digits_from itoa big_int_text big_int_value hex_encode equal_fold has_prefix replace_byte
    split_byte text_eq text_ltb to_lower to_upper trim_prefix trim_space accounting_refused
    amm_action amm_add_liquidity amm_checked amm_create_pool amm_swap apply_amm_transaction
    asset_credit asset_debit deposit_liquidity finish swap_on swap_paid
    apply_evm_contract_transaction contract_done contract_value evm_run mint_branch mint_coins
    nft_mint_branch nft_transfer_branch transaction transfer_branch transfer_coins transfer_verified
    new_signed_transaction sign_transaction normal_amm normal_names normal_nft normalize_amm
    valid_action valid_amm valid_nft_mint valid_nft_transfer mint_nft move_balance transfer_nft
    decode_evm marshal_content_for_signature signed_fields verify verify_evm verify_native is_amm
    is_evm is_mint is_nft is_nft_mint is_nft_transfer
payout_made = refl

payout_once_example :
    maybe_queue_monthly_payout wire (pos 9) schedule outcome.1 outcome.2
    ≡ done (none, outcome.1, outcome.2)
unfolding sub_int
payout_once_example =
    payout_once wire (pos 5) (pos 9) schedule (pos 0) earner outcome.2 outcome.2 (the outcome.0)
      outcome.1 payout_made refl refl

abbrev block_of : Run (Option Block × Peer) → Block
block_of (done (some b, q)) = b
block_of other = next_block

abbrev mined_block : Block
mined_block = block_of (mine_one_slot wire (pos 1) earner)

abbrev mined_peer : Peer
mined_peer = peer_of (mine_one_slot wire (pos 1) earner)

slot_mined : mine_one_slot wire (pos 1) earner ≡ done (some mined_block, mined_peer)
unfolding decode encode accepts add_block all_apply draw_matches draws_and_wins
    effective_hardness_for_block entry_hardness expected_draw plays plays_genesis transactions_valid
    wins_and_applies block_authentic compute_lottery_draw_from_proof decode_block_transactions
    decode_genesis_from_meta encode_block_transactions get_block_hash hash_text
    lottery_proof_message marshal_block marshal_for_signature new_block new_candidate_block
    sign_block sign_lottery_proof verify_lottery_proof wins_lottery average_recent_slot_interval
    clamp_hardness effective_dynamic_hardness effective_hardness_for_mining intervals
    build_ledger_at_hash build_ledger_from_blocks ledger_from_blockchain replay_block replay_blocks
    replay_transactions reward_miner add_node add_nodes best_leaf_hash better_leaf calculate_depths
    canonical_blocks cut_rollback fold_leaves get_blocks_from_longest_branch get_genesis_hash
    get_leaf_hash walk big_int_bytes bytes_to_big_int public_key_from_account_name rsa_sign
    rsa_verify safe_encode verify_signature add_balance apply_default_dynamic_hardness_config
    initialize_balances initialize_from_genesis sum_by delete insert lookup can_debit_asset
    credit_asset debit_asset pokoinpos.Ledger.get_balance is_native_validator_account is_operator
    is_validator lottery_tickets mark_validator tally_stakes tickets_of contains flood_network
    flood_to evict prune_invalid_mempool prune_pass prune_rounds share_payloads block_message
    build_candidate draw_lottery mine_one_slot optimistic_lottery_hardness publish
    select_transactions try_candidate validator_stake balance_of dynamic_hardness_fork_height
    apply_block drop_included include_block settle_block new_peer add_int div_int mul_int quotient
    sub_int to_uint64 wrap digits_from itoa big_int_text big_int_value hex_encode equal_fold
slot_mined = refl

mine_one_slot-Extends_example : Extends wire mined_block earner.blockchain mined_peer
mine_one_slot-Extends_example =
    mine_one_slot-Extends wire (pos 1) mined_block earner mined_peer slot_mined
