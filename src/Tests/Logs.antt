-- ===== src/Tests/Logs.antt =====
-- eth_getLogs on a chain with a call of a contract that logs.
use pokoinpos.Prelude.{List, some, [], ◌∷◌, ◌≡◌, ◌↔◌, refl, false}
use pokoinpos.Prelude.Run.{Run, done}
use pokoinpos.Text.{txt}
use pokoinpos.GoMap.{Map}
use pokoinpos.Evm.{Call}
use pokoinpos.Chain.Block.{Block}
use pokoinpos.Explorer.{ExplorerTx}
use pokoinpos.Peer.{Peer, Wire}
use pokoinpos.Service.{Any, text}
use pokoinpos.Service.Rpc.{address_filter}
use pokoinpos.Service.Logs.{Among, Passes, logs_of-Among}
use pokoinpos.Service.Calls.{logs_of}
use pokoinpos.Tests.Data.{wallet_payment, wallet_transfer}
use pokoinpos.Tests.Tree.{first_block}
use pokoinpos.Tests.Network.{wire, net, node, next_block}
use pokoinpos.Tests.Services.{listed_tx}

abbrev logging_wire : Wire
logging_wire = record wire {
  platform = record net {
    unmarshal_transactions = λ s. some (wallet_payment ∷ []);
    decode_transaction = λ s. some (record wallet_transfer { payload = txt "f" });
    evm_call = λ accounts from to tx gas. record {
      calls = Call.log (some (record { address = txt "0xAb"; topics = []; payload = [] })) ∷ [];
      failed = false;
      gas_used = 1;
      created = [];
    };
  };
}

abbrev call_block : Block
call_block = record next_block { meta_data = txt "x" }

abbrev logging_peer : Peer
logging_peer = record node { blockchain = some (first_block ∷ call_block ∷ []) }

abbrev entries : Map ExplorerTx
entries = (txt "0xt1", listed_tx) ∷ []

abbrev logs_in : Run (List Any) → List Any
logs_in (done logs) = logs
logs_in other = []

abbrev all_logs : List Any
all_logs = logs_in (logs_of logging_wire [] entries logging_peer)

all_listed : logs_of logging_wire [] entries logging_peer ≡ done all_logs
unfolding pokoinpos.Base64.decode pokoinpos.Base64.encode pokoinpos.Chain.AddBlock.all_apply
    pokoinpos.Chain.AddBlock.draw_matches pokoinpos.Chain.AddBlock.draws_and_wins
    pokoinpos.Chain.AddBlock.effective_hardness_for_block pokoinpos.Chain.AddBlock.entry_hardness
    pokoinpos.Chain.AddBlock.expected_draw pokoinpos.Chain.AddBlock.plays
    pokoinpos.Chain.AddBlock.plays_genesis pokoinpos.Chain.AddBlock.transactions_valid
    pokoinpos.Chain.AddBlock.wins_and_applies pokoinpos.Chain.Block.block_authentic
    pokoinpos.Chain.Block.compute_lottery_draw pokoinpos.Chain.Block.decode_block_transactions
    pokoinpos.Chain.Block.decode_genesis_from_meta pokoinpos.Chain.Block.get_block_hash
    pokoinpos.Chain.Block.hash_text pokoinpos.Chain.Block.marshal_block
    pokoinpos.Chain.Block.marshal_for_signature pokoinpos.Chain.Block.wins_lottery
    pokoinpos.Chain.Hardness.clamp_hardness pokoinpos.Chain.Hardness.effective_hardness_for_mining
    pokoinpos.Chain.State.build_ledger_at_hash pokoinpos.Chain.State.build_ledger_from_blocks
    pokoinpos.Chain.State.ledger_from_blockchain pokoinpos.Chain.State.replay_block
    pokoinpos.Chain.State.replay_blocks pokoinpos.Chain.State.replay_transactions
    pokoinpos.Chain.Tree.add_node pokoinpos.Chain.Tree.add_nodes pokoinpos.Chain.Tree.better_leaf
    pokoinpos.Chain.Tree.calculate_depths pokoinpos.Chain.Tree.cut_rollback
    pokoinpos.Chain.Tree.fold_leaves pokoinpos.Chain.Tree.get_blocks_from_longest_branch
    pokoinpos.Chain.Tree.get_genesis_hash pokoinpos.Chain.Tree.get_leaf_hash
    pokoinpos.Chain.Tree.walk pokoinpos.Crypto.verify_signature
    pokoinpos.Genesis.apply_default_dynamic_hardness_config pokoinpos.Genesis.initialize_balances
    pokoinpos.Genesis.initialize_from_genesis pokoinpos.GoMap.insert pokoinpos.GoMap.lookup
    pokoinpos.Ledger.is_native_validator_account pokoinpos.Ledger.is_validator
    pokoinpos.Ledger.lottery_tickets pokoinpos.Ledger.tally_stakes pokoinpos.Ledger.tickets_of
    pokoinpos.Peer.new_peer pokoinpos.Prelude.Int.add_int pokoinpos.Prelude.Int.div_int
    pokoinpos.Prelude.Int.mul_int pokoinpos.Prelude.Int.to_uint64 pokoinpos.Text.Decimal.itoa
    pokoinpos.Text.equal_fold pokoinpos.Text.has_prefix pokoinpos.Transaction.Apply.transaction
    pokoinpos.Transaction.Apply.transfer_branch pokoinpos.Transaction.Verify.decode_evm
    pokoinpos.Transaction.Verify.verify pokoinpos.Transaction.Verify.verify_evm pokoinpos.Tx.is_amm
    pokoinpos.Tx.is_evm pokoinpos.Tx.is_mint pokoinpos.Tx.is_nft_mint pokoinpos.Tx.is_nft_transfer
    pokoinpos.Transaction.Apply.transfer_verified
    pokoinpos.Transaction.Apply.apply_evm_contract_transaction pokoinpos.GoMap.delete
    pokoinpos.Service.Calls.logs_of pokoinpos.Peer.Best.best_evm_receipt pokoinpos.Peer.Best.on_best
    pokoinpos.Service.Rpc.passing pokoinpos.Service.Rpc.log_objects pokoinpos.Service.Rpc.log_object
    pokoinpos.Transaction.Apply.contract_done pokoinpos.Transaction.Apply.contract_value
    pokoinpos.Transaction.Apply.evm_run pokoinpos.Evm.run_calls pokoinpos.Evm.step
    pokoinpos.Evm.add_log pokoinpos.Evm.evm_logs_from_types pokoinpos.Ledger.evm_receipt
all_listed = refl

abbrev first_of : List Any → Any
first_of (log ∷ rest) = log
first_of [] = text []

logs_of-Among_example :
    (found : List Any) × (logs_of logging_wire
        (address_filter (text (txt "0xAB")))
        entries
        logging_peer
      ≡ done found)
    × (Among (first_of all_logs) found
        ↔ (Among (first_of all_logs) all_logs × Passes (text (txt "0xAB")) (first_of all_logs)))
logs_of-Among_example =
    logs_of-Among logging_wire (text (txt "0xAB")) (first_of all_logs) entries logging_peer all_logs
      all_listed
