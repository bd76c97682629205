-- ===== src/Tests/Services.antt =====
-- The theorems on the explorer and the JSON-RPC service, at concrete inputs.
use pokoinpos.Prelude.{true, some, none, Option, List, [], ◌∷◌, ◌≡◌, refl, arith, ◌↔◌, ◌≤◌, All}
use pokoinpos.Prelude.Int.{pos, ◌*ℤ◌}
use pokoinpos.Prelude.Run.{Run, done, panic}
use pokoinpos.Text.{txt, equal_fold, has_prefix, trim_prefix, trim_space}
use pokoinpos.Tx.{SignedTransaction, AmmPayload, is_amm, is_evm}
use pokoinpos.Chain.Block.{
  Block, decode_genesis_from_meta, get_block_hash, hash_text, marshal_block, marshal_for_signature,
}
use pokoinpos.Transaction.Make.{new_evm_transaction, of_evm, whole_amount}
use pokoinpos.Peer.{Peer, PeerAddress, new_peer}
use pokoinpos.Peer.Addresses.{unique_peer_addresses}
use pokoinpos.Peer.Best.{best_balance_of, on_best}
use pokoinpos.Peer.Mempool.{
  best_nonce_of, pending_nonce_of, admit, handle_pos_transaction, judge, next_nonce, refuses_amount,
}
use pokoinpos.Transaction.Verify.{no_amm, decode_evm, verify, verify_evm}
use pokoinpos.Explorer.{ExplorerTx, ExplorerBlock, explorer_tx_from_signed}
use pokoinpos.Explorer.Rpc.{
  Reply, parse_hex_uint64, transaction_at, send_raw_transaction, accept_raw, hex_number,
}
use pokoinpos.Explorer.Rpc.Replies.{Taken, transaction_at-panic, send_raw_transaction-Taken}
use pokoinpos.Explorer.Pages.Walk.{read_pages, read_pages_all}
use pokoinpos.Peer.Addresses.Sorted.{InOrder, IsUsable, unique_peer_addresses-InOrder}
use pokoinpos.Tests.Data.{wallet_payment}
use pokoinpos.Tests.Tree.{first_block}
use pokoinpos.Tests.Network.{wire, next_block, node, peer_of}
use pokoinpos.Chain.Tree.{
  add_nodes, better_leaf, calculate_depths, cut_rollback, fold_leaves,
  get_blocks_from_longest_branch, get_leaf_hash, walk,
}
use pokoinpos.Text.Decimal.{itoa}
use pokoinpos.Peer.Flood.{contains, flood_network, flood_to, has_seen_message, remember}
use pokoinpos.GoMap.{insert, lookup}
use pokoinpos.Transaction.Normal.{decode_pokoin_swap_calldata}
use pokoinpos.Chain.State.{build_ledger_from_blocks, ledger_from_blockchain, replay_blocks}
use pokoinpos.Base64.{decode, encode}
use pokoinpos.Ledger.{get_balance, get_nonce}
use pokoinpos.Text.Hex.{hex_value}
use pokoinpos.Genesis.{initialize_balances, initialize_from_genesis}
use pokoinpos.Peer.Make.{flood_pos_transaction}

abbrev pub listed_tx : ExplorerTx
listed_tx = explorer_tx_from_signed wallet_payment (txt "0x01") 1 0 true

abbrev three : List ExplorerTx
three = listed_tx ∷ listed_tx ∷ listed_tx ∷ []

read_pages_all_example : read_pages 4 three (pos 0) (pos 2) ≡ three
read_pages_all_example = read_pages_all three 2 (omega arith) (omega arith)

abbrev pub last_block : ExplorerBlock
last_block = record {
  number = 1;
  hash = txt "0x01";
  parent_hash = txt "0x00";
  slot = pos 3;
  draw = pos 7;
  miner = txt "m";
  transaction_count = 3;
  transactions = three;
  finalized = true;
}

large_index : parse_hex_uint64 (txt "0x8000000000000000") ≡ some 9223372036854775808
unfolding hex_number parse_hex_uint64 hex_value trim_prefix trim_space
large_index = refl

transaction_at-panic_example :
    (transaction_at last_block (txt "0x8000000000000000") ≡ panic)
    ↔ (9223372036854775808 ≤ 9223372036854775808)
transaction_at-panic_example =
    transaction_at-panic last_block (txt "0x8000000000000000") 9223372036854775808 (omega arith)
      large_index

abbrev swap : AmmPayload
swap = no_amm

-- JSON as Go writes and reads a payload: nil is null, and null leaves an empty payload.
abbrev read_back : Option AmmPayload → Option AmmPayload
read_back none = some swap
read_back (some a) = some a

abbrev two_blocks : List Block
two_blocks = first_block ∷ next_block ∷ []

abbrev the : Option SignedTransaction → SignedTransaction
the (some t) = t
the none = wallet_payment

abbrev sent : SignedTransaction
sent = the (new_evm_transaction wire.platform (txt "0xf8") (pos 7))

abbrev answer_of : Run (Reply × Peer) → Reply
answer_of (done r) = r.0
answer_of other = Reply.result []

abbrev answer : Reply
answer = answer_of (send_raw_transaction wire (pos 7) (txt "0xf8") node)

abbrev answered : Peer
answered = peer_of (send_raw_transaction wire (pos 7) (txt "0xf8") node)

raw_decoded : new_evm_transaction wire.platform (txt "0xf8") (pos 7) ≡ some sent
unfolding new_evm_transaction whole_amount
raw_decoded = refl

sender_nonce : best_nonce_of wire node sent.from ≡ done 0
unfolding decode encode decode_genesis_from_meta get_block_hash hash_text marshal_block
    marshal_for_signature build_ledger_from_blocks ledger_from_blockchain replay_blocks add_nodes
    better_leaf calculate_depths cut_rollback fold_leaves get_blocks_from_longest_branch
    get_leaf_hash walk initialize_balances initialize_from_genesis lookup get_nonce best_nonce_of
    itoa equal_fold
sender_nonce = refl

sender_pending : pending_nonce_of wire node sent.from ≡ done 1
unfolding decode encode decode_genesis_from_meta get_block_hash hash_text marshal_block
    marshal_for_signature build_ledger_from_blocks ledger_from_blockchain replay_blocks add_nodes
    better_leaf calculate_depths cut_rollback fold_leaves get_blocks_from_longest_branch
    get_leaf_hash walk initialize_balances initialize_from_genesis lookup get_nonce best_nonce_of
    next_nonce pending_nonce_of itoa equal_fold has_prefix new_evm_transaction of_evm whole_amount
    decode_pokoin_swap_calldata is_evm
sender_pending = refl

sender_balance : best_balance_of wire sent.from node ≡ done (pos 10)
unfolding decode encode decode_genesis_from_meta get_block_hash hash_text marshal_block
    marshal_for_signature build_ledger_from_blocks ledger_from_blockchain replay_blocks add_nodes
    better_leaf calculate_depths cut_rollback fold_leaves get_blocks_from_longest_branch
    get_leaf_hash walk initialize_balances initialize_from_genesis insert lookup get_balance
    best_balance_of on_best itoa equal_fold has_prefix new_evm_transaction of_evm whole_amount
    decode_pokoin_swap_calldata
sender_balance = refl

raw_answered : send_raw_transaction wire (pos 7) (txt "0xf8") node ≡ done (answer, answered)
unfolding decode encode decode_genesis_from_meta get_block_hash hash_text marshal_block
    marshal_for_signature build_ledger_from_blocks ledger_from_blockchain replay_blocks add_nodes
    better_leaf calculate_depths cut_rollback fold_leaves get_blocks_from_longest_branch
    get_leaf_hash walk accept_raw send_raw_transaction initialize_balances initialize_from_genesis
    insert lookup get_balance get_nonce best_balance_of on_best contains flood_network flood_to
    has_seen_message remember flood_pos_transaction admit best_nonce_of handle_pos_transaction judge
    next_nonce pending_nonce_of refuses_amount new_peer ◌*ℤ◌ itoa equal_fold has_prefix
    new_evm_transaction of_evm whole_amount decode_pokoin_swap_calldata decode_evm verify verify_evm
    is_amm is_evm
raw_answered = refl

send_raw_transaction-Taken_example : Taken wire sent 0 1 (pos 10) node (answer, answered)
send_raw_transaction-Taken_example =
    send_raw_transaction-Taken wire (pos 7) (txt "0xf8") node answered sent 0 1 (pos 10) answer
      raw_decoded sender_nonce sender_pending sender_balance raw_answered

abbrev heard : List PeerAddress
heard =
    record { id = txt "b"; host = txt "h2"; port = pos 9001 }
    ∷ record { id = txt "a"; host = txt "h1"; port = pos 9000 }
    ∷ []

unique_peer_addresses-InOrder_example :
    InOrder (unique_peer_addresses heard) × All IsUsable (unique_peer_addresses heard)
unique_peer_addresses-InOrder_example = unique_peer_addresses-InOrder heard
