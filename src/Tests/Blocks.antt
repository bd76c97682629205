-- ===== src/Tests/Blocks.antt =====
-- A chain of a genesis block, the block that Alice adds to it, and one that she may not add.
use pokoinpos.Prelude.{◌≡◌, refl, true, false, List, [], ◌∷◌, ◌++◌, map}
use pokoinpos.Prelude.Int.{
  pos, ◌≤ℤ◌, add_int, sub_int, mul_int, div_int, quotient, wrap, to_uint64, ◌+ℤ◌, ◌-ℤ◌, ◌*ℤ◌,
}
use pokoinpos.Prelude.Run.{done}
use pokoinpos.Text.{txt, text_eq}
use pokoinpos.GoMap.{lookup, insert}
use pokoinpos.Base64
use pokoinpos.Crypto.{verify_signature, bytes_to_big_int}
use pokoinpos.Ledger.{
  is_native_validator_account, lottery_tickets, tally_stakes, tickets_of, is_validator, get_balance,
}
use pokoinpos.Genesis.{
  initialize_from_genesis, initialize_balances, apply_default_dynamic_hardness_config,
}
use pokoinpos.Chain.Block.{
  Block, block_authentic, hash_text, get_block_hash, marshal_block, marshal_for_signature,
  decode_genesis_from_meta, decode_block_transactions, compute_lottery_draw, wins_lottery,
}
use pokoinpos.Chain.Hardness.{
  effective_hardness_for_mining, clamp_hardness, effective_hardness_bounds,
}
use pokoinpos.Chain.Tree.{
  Depths, walk, get_blocks_from_longest_branch, get_genesis_hash, add_nodes, calculate_depths,
  get_leaf_hash, best_leaf_hash,
}
use pokoinpos.Chain.Leaf.{swapped, get_leaf_hash-Reordered}
use pokoinpos.Chain.State.{build_ledger_from_blocks, build_ledger_at_hash, replay_blocks}
use pokoinpos.Chain.AddBlock.{
  add_block, accepts, plays_genesis, plays, draws_and_wins, draw_matches, wins_and_applies,
  entry_hardness, expected_draw, effective_hardness_for_block, transactions_valid, all_apply,
}
use pokoinpos.Chain.Accept.{IsValidBlock, add_block_iff}
use pokoinpos.Chain.Unsigned.{with_meta, best_leaf_hash-with_meta}
use pokoinpos.Tests.Data.{alice, toy, genesis_settings}

abbrev start : List Block
start =
    record {
      block_type = txt "block";
      verification_key = [];
      slot = pos 0;
      draw = pos 0;
      meta_data = txt "e30=";
      parent_hash = [];
      signature = [];
      lottery_proof = [];
    }
    ∷ []

abbrev first_block : Block
first_block = record {
  block_type = txt "block";
  verification_key = alice;
  slot = pos 1;
  draw = pos 5;
  meta_data = [];
  parent_hash = txt "BQ==";
  signature = txt "BQ==";
  lottery_proof = [];
}

abbrev false_draw : Block
false_draw = record first_block { draw = pos 6 }

first_block_added : add_block toy start first_block ≡ done (true, start ++ (first_block ∷ []))
unfolding add_block accepts calculate_depths add_nodes hash_text get_block_hash marshal_block
    marshal_for_signature Base64.encode Base64.decode block_authentic verify_signature plays_genesis
    get_genesis_hash decode_genesis_from_meta plays build_ledger_at_hash
    get_blocks_from_longest_branch walk build_ledger_from_blocks initialize_from_genesis
    initialize_balances replay_blocks lottery_tickets is_native_validator_account tally_stakes
    tickets_of draws_and_wins expected_draw compute_lottery_draw bytes_to_big_int draw_matches
    wins_and_applies effective_hardness_for_block decode_block_transactions
    effective_hardness_for_mining apply_default_dynamic_hardness_config clamp_hardness
    entry_hardness is_validator get_balance wins_lottery to_uint64 transactions_valid all_apply
    text_eq lookup insert add_int sub_int mul_int div_int quotient wrap ◌+ℤ◌ ◌-ℤ◌ ◌*ℤ◌
first_block_added = refl

false_draw_refused : add_block toy start false_draw ≡ done (false, start)
unfolding add_block accepts calculate_depths add_nodes hash_text get_block_hash marshal_block
    marshal_for_signature Base64.encode Base64.decode block_authentic verify_signature plays_genesis
    get_genesis_hash decode_genesis_from_meta plays build_ledger_at_hash
    get_blocks_from_longest_branch walk build_ledger_from_blocks initialize_from_genesis
    initialize_balances replay_blocks lottery_tickets is_native_validator_account tally_stakes
    tickets_of draws_and_wins expected_draw compute_lottery_draw bytes_to_big_int draw_matches
    text_eq lookup insert add_int sub_int mul_int div_int quotient wrap ◌+ℤ◌ ◌-ℤ◌ ◌*ℤ◌
false_draw_refused = refl

add_block_iff_example : IsValidBlock toy start first_block
add_block_iff_example = (add_block_iff toy start first_block).0 first_block_added

abbrev two_leaves : Depths
two_leaves = (txt "b", 3) ∷ (txt "a", 3) ∷ []

get_leaf_hash-Reordered_example :
    get_leaf_hash two_leaves ≡ get_leaf_hash ((txt "a", 3) ∷ (txt "b", 3) ∷ [])
get_leaf_hash-Reordered_example =
    get_leaf_hash-Reordered two_leaves ((txt "a", 3) ∷ (txt "b", 3) ∷ [])
      (swapped (txt "b") (txt "a") 3 3 [])

best_leaf_hash-with_meta_example :
    best_leaf_hash toy (map (with_meta (λ b. txt "other")) (start ++ (first_block ∷ [])))
    ≡ best_leaf_hash toy (start ++ (first_block ∷ []))
best_leaf_hash-with_meta_example =
    best_leaf_hash-with_meta toy (λ b. txt "other") (start ++ (first_block ∷ []))

effective_hardness_bounds_example :
    let genesis = apply_default_dynamic_hardness_config genesis_settings in
    let hardness = effective_hardness_for_mining start genesis_settings 0 in
    (genesis.dynamic_hardness_min ≤ℤ hardness)
    × (hardness ≤ℤ genesis.dynamic_hardness_max)
    × (pos 1 ≤ℤ hardness)
effective_hardness_bounds_example = effective_hardness_bounds start genesis_settings 0
