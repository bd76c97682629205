-- ===== src/Lib.antt =====
-- pokoin is a proof-of-stake chain with native accounts (RSA keys), Ethereum wallets, NFTs and an
-- automated market maker. Its core is the Go package peer/account: a block tree, and a ledger that the
-- blocks of its longest branch compute. Around it the package peer floods messages over a network, keeps
-- a mempool, mines, exchanges chains and answers an explorer and wallets. This library models both.
--
-- Parts and files:
--   Prelude       names passed on, Boolean tests, lists, `Run` (code that may panic or not return), Go's
--                 64-bit int with its wrap-around (Prelude.Int)
--   Text, Base64  Go strings as lists of bytes; package strings, strconv and encoding/base64 as the code
--                 uses them
--   GoMap         Go maps with string keys, as association lists
--   Tx            SignedTransaction and its payloads (peer/account/transaction.go)
--   Assets, Amm   names of assets, pools and NFTs; quotes and swaps (peer/account/transaction.go)
--   Ledger        the Ledger and its methods (peer/account/ledger.go)
--   Crypto        RSA signatures and account names (peer/dissycrypto, peer/account/AccountKeys.go)
--   Genesis       the shared settings and their defaults (peer/account/Genesis.go)
--   Evm           the adapter under go-ethereum's machine (peer/account/evm_state.go)
--   Platform      what the code calls and does not implement: the hash, the JSON codec, go-ethereum
--   Transaction   Verify and Transaction, by the kind of transaction (peer/account/transaction.go)
--   Chain         blocks, lottery, hardness, the tree, AddBlock (peer/account/blockchain.go)
--   Peer          the peer and its handlers (peer/peer.go, peer/message.go): Flood, Mempool, Receive, Sync,
--                 Mine, Make, Addresses, Connect, Handle for OnMessage, Queries and Best for the methods
--                 that report; Committed, Frame and the children of the others hold proofs
--   Explorer      the explorer's index (peer/runtime_index.go), with the paging of peer/runtime_ops.go in
--                 Pages, and in Rpc its methods that find a block or take in a transaction
--   Bootstrap     the registry of bootstrap peers (peer/bootstrap_manifest.go)
--   Config        the settings of a node and their checks (peer/runtime_config.go)
--   Node          the mining tick and the payouts (peer/handin.go)
--   Service       the HTTP service (peer/runtime_ops.go, peer/runtime_dashboard.go): Routes for
--                 StartOpsServer; Pages, Info, Holdings and Explore for the handlers that only read;
--                 Admin and Replies for those behind the token; Rpc, Methods, Calls, Objects and
--                 Dispatch for handleRPC, Posts for the two handlers of JSON-RPC; Keeps, Steps,
--                 Guarded, Quotes, Logs, Paging, Static and Numbers hold proofs
--   Tests         runs on concrete inputs
--
-- A method of the source takes a lock, works on the ledger or the chain, and gives the lock back: it is
-- one function from the state to a result and the next state. A bool result is a Bool; a run that
-- panics, or that does not return, is `panic`. Transaction is `Transaction.Apply.transaction`: it
-- branches as the source does into apply_amm_transaction, nft_mint_branch, nft_transfer_branch,
-- mint_branch and transfer_branch. AddBlock is `Chain.AddBlock.add_block`; it builds the ledger of the
-- parent (`build_ledger_at_hash`), asks it for lottery tickets and runs the transactions on it.
--
-- A peer is a record, and a handler is a function to the next peer. What a handler writes to a connection
-- goes to the end of `outbox`, what it hands to the application to the end of `delivered`, and an address
-- it dials to `dialled`; a connection is a number, or none for nil. OnMessage is `Peer.Handle.on_message`:
-- it calls handle_block, handle_pos_transaction, handle_transaction, handle_chain_sync_response and the
-- others by the type of the message, and floods what they accept. handle_block and mine_one_slot call
-- add_block, rebuild the ledger and prune the mempool through `settle_block`. `Wire` has the JSON codec and
-- the parsing of addresses as parameters, `Config.Env` the environment; the clock is an argument.
--
-- A handler of the service is a function from a request and a peer to a response and the next peer;
-- `Service.Routes.serve` picks it by the path as StartOpsServer registers it. A value that the source hands
-- to its JSON encoder is an `Any`. `Service.Gateway` has the JSON decoding of bodies, go-ethereum's
-- hexadecimal texts and the read-only run of its machine as parameters, `Service.Moment` the clock. The
-- service calls the peer only by the methods that Peer models: it floods transactions with Make and mines a
-- slot with Mine, lists the mempool with Best, and reads the rest.
--
-- A copy of a transaction of the mempool points to the same NFT and AMM payloads as its entry. Pruning, the
-- selection of a block and the list of the mempool run Transaction on such copies, and `share_payloads`
-- writes into the mempool what it leaves of them.
--
-- Integers: `int` is ℤ wrapped to 64 bits after every operation, `uint64` is ℕ modulo 2 ^ 64. Bytes are
-- numbers below 256. Case folding and trimming are those of ASCII. A loop over a map takes its entries
-- as they are listed. The walk back through the tree has as fuel the number of nodes and two; a block
-- is fewer steps from the genesis block than there are nodes (Chain.Walk). The loop that prunes the
-- mempool has one round more than there are pending transactions; a round that is not the last keeps one
-- more of them. The attempts of a mining tick are counted down from their number.
--
-- Not modelled: sockets, goroutines and locks, so that the handlers of a peer run one after another; log
-- output; the text of the JSON that the service writes, its response headers, and the redirect of a path
-- that is not clean; the page of the dashboard and the list of endpoints, which are constants; state
-- files; start-up and the demo; key generation and encrypted wallets. The EVM is a parameter that yields
-- the calls on its adapter.
pub mod Prelude
pub mod Text
pub mod GoMap
pub mod Base64
pub mod Tx
pub mod Assets
pub mod Amm
pub mod Ledger
pub mod Crypto
pub mod Genesis
pub mod Evm
pub mod Platform
pub mod Transaction
pub mod Chain
pub mod Peer
pub mod Explorer
pub mod Bootstrap
pub mod Config
pub mod Node
pub mod Service
pub mod Tests
