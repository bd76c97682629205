-- ===== src/Peer/Handle.antt =====
-- OnMessage: what a peer does with each kind of message.
use pokoinpos.Prelude.{Bool, true, false, ◌||◌, if◌then◌else◌, []}
use pokoinpos.Prelude.Int.{ℤ}
use pokoinpos.Prelude.Run.{Run, done, ◌>>=◌}
use pokoinpos.Text.{Text, txt, text_eq}
use pokoinpos.Peer.{Message, Peer, Wire}
use pokoinpos.Peer.Flood.{send, add_received_flood_message, flood_network}
use pokoinpos.Peer.Mempool.{handle_pos_transaction}
use pokoinpos.Peer.Receive.{deliver, handle_block, handle_transaction}
use pokoinpos.Peer.Sync.{handle_chain_sync_request}
use pokoinpos.Peer.Sync.Install.{handle_chain_sync_response}
use pokoinpos.Peer.Connect.{handle_join}

-- The kinds that the switch tells apart, by the constants of helpers.
pub data Kind : Type 0 where
  ping : Kind
  transaction : Kind
  pos_transaction : Kind
  block : Kind
  sync_request : Kind
  sync_response : Kind
  join : Kind
  other : Kind

unfoldable pub kind_of : Text → Kind
kind_of t =
    if text_eq t (txt "Ping")
    then Kind.ping
    else if text_eq t (txt "Transaction")
    then Kind.transaction
    else if text_eq t (txt "PoSTransaction")
    then Kind.pos_transaction
    else if text_eq t (txt "Block")
    then Kind.block
    else if text_eq t (txt "ChainSyncRequest")
    then Kind.sync_request
    else if text_eq t (txt "ChainSyncResponse")
    then Kind.sync_response
    else if text_eq t (txt "Join")
    then Kind.join
    else Kind.other

-- Whether the end of OnMessage hands the message on to `received`.
unfoldable pub is_delivered : Text → Bool
is_delivered t = text_eq t (txt "Transaction") || text_eq t (txt "Test-flood-message")

-- The lines after the switch.
unfoldable pub forward : Message → Peer → Run Peer
forward msg p = do
  p' ← flood_network msg (add_received_flood_message msg p)
  done (if is_delivered msg.msg_type then deliver msg p' else p')

-- A handler's result: only a message that it accepts is forwarded.
unfoldable pub forward_if : Message → Bool → Peer → Run Peer
forward_if msg false p = done p
forward_if msg true p = forward msg p

-- The answer to a ping.
unfoldable pub pong : Text → Message → Peer → Peer
pong from msg p =
    (send from (record { msg_type = txt "Pong"; msg_id = msg.msg_id; from = p.id; payload = [] })
      p).1

module _ (w : Wire) where
  unfoldable pub handle_kind : ℤ → Text → Message → Kind → Peer → Run Peer
  handle_kind now from msg Kind.ping p = done (deliver msg (pong from msg p))
  handle_kind now from msg Kind.transaction p = do
    (ok, p') ← handle_transaction w msg p
    forward_if msg ok p'
  handle_kind now from msg Kind.pos_transaction p = do
    (ok, p') ← handle_pos_transaction w msg p
    forward_if msg ok p'
  handle_kind now from msg Kind.block p = do
    (ok, p') ← handle_block w now msg p
    forward_if msg ok p'
  handle_kind now from msg Kind.sync_request p = handle_chain_sync_request w now from msg p
  handle_kind now from msg Kind.sync_response p = do
    (ok, p') ← handle_chain_sync_response w now msg p
    done p'
  handle_kind now from msg Kind.join p = forward msg (handle_join w msg p)
  handle_kind now from msg Kind.other p = forward msg p

  unfoldable pub on_message : ℤ → Text → Message → Peer → Run Peer
  on_message now from msg p = handle_kind now from msg (kind_of msg.msg_type) p
