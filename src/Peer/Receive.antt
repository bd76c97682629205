-- ===== src/Peer/Receive.antt =====
-- What a peer does with a block and with a legacy transaction that it receives.
pub mod Once
pub mod Kept
use pokoinpos.Prelude.{
  Bool, true, false, ◌&&◌, ◌||◌, not, none, some, List, [], ◌∷◌, ◌++◌, if◌then◌else◌,
}
use pokoinpos.Prelude.Int.{ℤ, pos}
use pokoinpos.Prelude.Run.{Run, done, ◌>>=◌}
use pokoinpos.Text.{Text, txt, text_eq, is_empty}
use pokoinpos.GoMap.{Map, delete}
use pokoinpos.Tx.{SignedTransaction}
use pokoinpos.Transaction.Apply.{transaction}
use pokoinpos.Transaction.Make.{has_recorded_transaction}
use pokoinpos.Chain.Block.{Block, hash_text, decode_block_transactions}
use pokoinpos.Chain.State.{ledger_from_blockchain}
use pokoinpos.Chain.AddBlock.{add_block}
use pokoinpos.Peer.{Message, Peer, Wire, count_up}
use pokoinpos.Peer.Flood.{has_seen_message, remember, flood_network}
use pokoinpos.Peer.Mempool.{prune_invalid_mempool}
use pokoinpos.Peer.Sync.{chain_status, request_chain_sync}

-- The loop that deletes the transactions of a block from the mempool.
unfoldable pub drop_included :
    List SignedTransaction → Map SignedTransaction → Map SignedTransaction
drop_included [] mempool = mempool
drop_included (t ∷ ts) mempool = drop_included ts (delete t.id mempool)

-- `p.received <- *msg`
abbrev pub deliver : Message → Peer → Peer
deliver msg p = record p { delivered = p.delivered ++ (msg ∷ []) }

module _ (w : Wire) where
  -- The loop of hasBlockHash.
  unfoldable pub lists_hash : Text → List Block → Bool
  lists_hash hash [] = false
  lists_hash hash (b ∷ rest) = text_eq (hash_text w.platform b) hash || lists_hash hash rest

  unfoldable pub has_block_hash : Peer → Text → Bool
  has_block_hash p hash = elim p.blockchain [
    | none ↦ false
    | some chain ↦ not (is_empty hash) && lists_hash hash chain
  ]

  -- The deletion of the transactions that a block includes, where they can be read.
  unfoldable pub include_block : Block → Map SignedTransaction → Map SignedTransaction
  include_block b mempool = elim (decode_block_transactions w.platform b.meta_data) [
    | none ↦ mempool
    | some txs ↦ drop_included txs mempool
  ]

  -- What ApplyBlock and handleBlock do once AddBlock has accepted a block: the ledger is rebuilt, the
  -- block counted, and the mempool cleared of what is included or no longer valid.
  unfoldable pub settle_block : Block → List Block → Peer → Run Peer
  settle_block b chain p = do
    l ← ledger_from_blockchain w.platform chain p.finality_depth
    (removed, p') ← prune_invalid_mempool w (record p {
      blockchain = some chain;
      ledger = l;
      accepted_blocks = count_up p.accepted_blocks;
      mempool = include_block b p.mempool;
    })
    done p'

  unfoldable pub apply_block : Block → Peer → Run (Bool × Peer)
  apply_block b p = elim p.blockchain [
    | none ↦ done (false, p)
    | some chain ↦ do
      (ok, next) ← add_block w.platform chain b
      elim ok [ false ↦ done (false, p) | true ↦ do p' ← settle_block b next p; done (true, p') ]
  ]

  -- A block that was refused for an unknown parent: the sender is asked for its whole chain.
  unfoldable pub ask_for_parent : ℤ → Message → Block → Peer → Run Peer
  ask_for_parent now msg b p = elim (has_block_hash p b.parent_hash) [
    | true ↦ done p
    | false ↦ do
      local ← chain_status w p
      done (
          if is_empty local.genesis_hash
          then p
          else request_chain_sync w now msg.from
              (record { genesis_hash = local.genesis_hash; from_height = pos 0 }) p)
  ]

  -- The part of handleBlock after the two tests on the message.
  unfoldable pub take_block : ℤ → Message → Block → List Block → Peer → Run (Bool × Peer)
  take_block now msg b chain p = do
    (ok, next) ← add_block w.platform chain b
    elim ok [
      | false ↦ do p' ← ask_for_parent now msg b p; done (false, p')
      | true ↦ do p' ← settle_block b next p; done (true, remember msg p')
    ]

  unfoldable pub handle_block : ℤ → Message → Peer → Run (Bool × Peer)
  handle_block now msg p = elim p.blockchain [
    | none ↦ done (false, p)
    | some chain ↦ elim (w.unmarshal_block msg.payload) [
      | none ↦ done (false, p)
      | some b ↦ elim (has_seen_message p msg.msg_id) [
        | true ↦ done (false, p)
        | false ↦ take_block now msg b chain p
      ]
    ]
  ]

  -- A transaction that fails leaves in the ledger what Transaction left.
  unfoldable pub handle_transaction : Message → Peer → Run (Bool × Peer)
  handle_transaction msg p = elim (w.unmarshal_transaction msg.payload) [
    | none ↦ done (false, p)
    | some t ↦ elim (has_seen_message p msg.msg_id || has_recorded_transaction p.ledger t) [
      | true ↦ done (false, p)
      | false ↦ do
        (ok, mutated, l) ← transaction w.platform t p.ledger
        done (
            if ok
            then (
              true,
              remember msg (record p { ledger = l; accepted_txs = count_up p.accepted_txs }),
            )
            else (false, record p { ledger = l }))
    ]
  ]

  unfoldable pub flood_transaction : SignedTransaction → Peer → Run Peer
  flood_transaction t p =
      let msg : Message = record {
        msg_type = txt "Transaction";
        msg_id = t.id;
        from = p.id;
        payload = w.marshal_transaction t;
      } in
      elim (has_seen_message p t.id) [
        | true ↦ done p
        | false ↦ do
          (ok, p') ← handle_transaction msg p
          elim ok [ false ↦ done p' | true ↦ flood_network msg (deliver msg p') ]
      ]
