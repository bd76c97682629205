-- ===== src/Service/Explore.antt =====
-- peer/runtime_ops.go: the handlers below /explorer, which read the index of the chain.
use pokoinpos.Prelude.{
  ℕ, zero, suc, ◌-◌, true, false, ◌&&◌, Option, none, some, List, [], ◌∷◌, if◌then◌else◌, length,
  ltb, ◌==◌,
}
use pokoinpos.Prelude.Int.{ℤ, pos, negsuc, pos_part}
use pokoinpos.Prelude.Run.{Run, done, ◌>>=◌}
use pokoinpos.Text.{
  Text, txt, trim_space, trim_prefix, has_prefix, has_suffix, trim_suffix, to_lower,
}
use pokoinpos.GoMap.{lookup, at}
use pokoinpos.Explorer.{ExplorerTx, ExplorerBlock, ExplorerIndex, build_explorer_index}
use pokoinpos.Explorer.Pages.{
  query_int, bounded_query_int, sort_explorer_txs, limit_explorer_txs, page_of,
}
use pokoinpos.Explorer.Rpc.{block_at}
use pokoinpos.Peer.{Peer, Wire}
use pokoinpos.Peer.Mempool.{best_nonce_of}
use pokoinpos.Peer.Best.{best_balance_of}
use pokoinpos.Service.{
  Any, nil, text, natural, number, items, literal, slice, any_explorer_tx, any_explorer_block,
  any_explorer_address, ExplorerAddress, Request, Response, json, failure,
}

-- The loop of explorerBlocks, from `height` down: the blocks without their transactions, `room` at most.
unfoldable pub blocks_down : ExplorerIndex → ℕ → ℕ → List ExplorerBlock
blocks_down idx height zero = []
blocks_down idx zero (suc room) = elim (block_at idx (pos 0)) [
  | none ↦ []
  | some b ↦ record b { transactions = [] } ∷ []
]
blocks_down idx (suc height) (suc room) = elim (block_at idx (pos (suc height))) [
  | none ↦ blocks_down idx height (suc room)
  | some b ↦ record b { transactions = [] } ∷ blocks_down idx height room
]

-- The number of the last block of a list.
unfoldable pub last_number : ℕ → List ExplorerBlock → ℕ
last_number n [] = n
last_number n (b ∷ rest) = last_number b.number rest

-- The page of explorerBlocks at a cursor, and the next cursor.
unfoldable pub block_page : ExplorerIndex → ℤ → ℕ → List ExplorerBlock × Option ℕ
block_page idx (negsuc n) limit = ([], none)
block_page idx (pos cursor) limit =
    let blocks = blocks_down idx cursor limit in
    (
      blocks,
      if (length blocks == limit) && ltb 0 (last_number 0 blocks)
          then some (last_number 0 blocks - 1)
          else none,
    )

abbrev pub cursor_of : Option ℕ → Any
cursor_of none = nil
cursor_of (some n) = natural n

abbrev pub signed_cursor : Option ℤ → Any
signed_cursor none = nil
signed_cursor (some n) = number n

unfoldable pub found_block : Text → Any → Response
found_block kind found = json 200 (literal ((txt "type", text kind) ∷ (txt "result", found) ∷ []))

module _ (w : Wire) where
  unfoldable pub explorer_blocks : Request → Peer → Run Response
  explorer_blocks r p = do
    idx ← build_explorer_index w p
    let limit = bounded_query_int w.atoi (r.query (txt "limit")) (pos 25) (pos 1) (pos 100)
    let cursor = query_int w.atoi (r.query (txt "cursor")) (pos idx.latest_height)
    let (blocks, next) = block_page idx cursor (pos_part limit)
    done (
        json 200 (
          literal (
            (txt "blocks", items (slice any_explorer_block blocks))
            ∷ (txt "nextCursor", cursor_of next)
            ∷ (txt "latestHeight", natural idx.latest_height)
            ∷ (txt "finalizedHeight", number idx.finalized_height)
            ∷ [])))

  -- The block that a key of the path names.
  unfoldable pub block_by_key : ExplorerIndex → Text → Option ExplorerBlock
  block_by_key idx key =
      if has_prefix (to_lower key) (txt "0x")
      then lookup (to_lower key) idx.blocks_by_hash
      else elim (w.atoi key) [ none ↦ none | some height ↦ block_at idx height ]

  unfoldable pub explorer_block_page : Request → Peer → Run Response
  explorer_block_page r p = do
    idx ← build_explorer_index w p
    done (elim (block_by_key idx (trim_prefix r.path (txt "/explorer/blocks/"))) [
      | none ↦ failure 404 (txt "block_not_found")
      | some b ↦ json 200 (any_explorer_block b)
    ])

  unfoldable pub explorer_tx_page : Request → Peer → Run Response
  explorer_tx_page r p = do
    idx ← build_explorer_index w p
    done (elim (lookup (to_lower (trim_prefix r.path (txt "/explorer/tx/"))) idx.txs_by_hash) [
      | none ↦ failure 404 (txt "transaction_not_found")
      | some tx ↦ json 200 (any_explorer_tx tx)
    ])

  -- What is known of an address, with some of its transactions.
  unfoldable pub address_summary : Text → ℕ → List ExplorerTx → Peer → Run ExplorerAddress
  address_summary address count txs p = do
    balance ← best_balance_of w address p
    nonce ← best_nonce_of w p address
    done (record {
      address = address;
      balance = balance;
      nonce = nonce;
      transaction_count = count;
      transactions = txs;
    })

  unfoldable pub explorer_address_page : Request → Peer → Run Response
  explorer_address_page r p =
      let path = trim_prefix r.path (txt "/explorer/address/") in
      let address = to_lower (trim_suffix path (txt "/txs")) in
      do
        idx ← build_explorer_index w p
        let txs = sort_explorer_txs (at [] address idx.txs_by_address)
        let limit = bounded_query_int w.atoi (r.query (txt "limit")) (pos 25) (pos 1) (pos 100)
        let (page, next) = page_of txs (query_int w.atoi (r.query (txt "cursor")) (pos 0)) limit
        elim (has_suffix path (txt "/txs")) [
          | true ↦ done (
              json 200 (
                literal (
                  (txt "transactions", items (slice any_explorer_tx page))
                  ∷ (txt "nextCursor", signed_cursor next)
                  ∷ [])))
          | false ↦ do
            known ← address_summary address (length txs) page p
            done (json 200 (any_explorer_address known))
        ]

  -- The last case of explorerSearch: an address.
  unfoldable pub search_address : ExplorerIndex → Text → Peer → Run Response
  search_address idx q p = elim (lookup q idx.txs_by_address) [
    | none ↦ done (failure 404 (txt "not_found"))
    | some txs ↦ do
      known ← address_summary q (length txs) (limit_explorer_txs (sort_explorer_txs txs) 25) p
      done (found_block (txt "address") (any_explorer_address known))
  ]

  unfoldable pub search_in : ExplorerIndex → Text → Peer → Run Response
  search_in idx q p = elim (lookup q idx.txs_by_hash) [
    | some tx ↦ done (found_block (txt "transaction") (any_explorer_tx tx))
    | none ↦ elim (lookup q idx.blocks_by_hash) [
      | some b ↦ done (found_block (txt "block") (any_explorer_block b))
      | none ↦ elim (w.atoi q) [
        | none ↦ search_address idx q p
        | some height ↦ elim (block_at idx height) [
          | some b ↦ done (found_block (txt "block") (any_explorer_block b))
          | none ↦ search_address idx q p
        ]
      ]
    ]
  ]

  unfoldable pub explorer_search : Request → Peer → Run Response
  explorer_search r p = do
    idx ← build_explorer_index w p
    search_in idx (to_lower (trim_space (r.query (txt "q")))) p
