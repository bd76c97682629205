-- ===== src/Explorer/Pages.antt =====
-- peer/runtime_ops.go: the pages in which the explorer serves the transactions of an address.
pub mod Walk
use pokoinpos.Prelude.{
  ℕ, ◌-◌, Bool, Option, none, some, List, [], ◌∷◌, if◌then◌else◌, length, take, drop, leb, ltb,
  ◌==◌,
}
use pokoinpos.Prelude.Int.{ℤ, pos, pos_part, add_int, ltb_ℤ}
use pokoinpos.Text.{Text, is_empty, trim_space}
use pokoinpos.Explorer.{ExplorerTx}

-- sortExplorerTxs: the latest first.
unfoldable pub is_later : ExplorerTx → ExplorerTx → Bool
is_later a b =
    if a.block_number == b.block_number
    then ltb b.transaction_index a.transaction_index
    else ltb b.block_number a.block_number

unfoldable pub insert_tx : ExplorerTx → List ExplorerTx → List ExplorerTx
insert_tx a [] = a ∷ []
insert_tx a (b ∷ rest) =
    let below = insert_tx a rest in if is_later a b then a ∷ b ∷ rest else b ∷ below

unfoldable pub sort_explorer_txs : List ExplorerTx → List ExplorerTx
sort_explorer_txs [] = []
sort_explorer_txs (a ∷ rest) = insert_tx a (sort_explorer_txs rest)

unfoldable pub limit_explorer_txs : List ExplorerTx → ℕ → List ExplorerTx
limit_explorer_txs txs limit = if leb (length txs) limit then txs else take limit txs

-- `raw` is the query's value, and `atoi` strconv.Atoi.
unfoldable pub query_int : (Text → Option ℤ) → Text → ℤ → ℤ
query_int atoi raw fallback =
    let value = trim_space raw in
    if is_empty value then fallback else elim (atoi value) [ none ↦ fallback | some n ↦ n ]

unfoldable pub bounded_query_int : (Text → Option ℤ) → Text → ℤ → ℤ → ℤ → ℤ
bounded_query_int atoi raw fallback min max =
    let value = query_int atoi raw fallback in
    if ltb_ℤ value min then min else if ltb_ℤ max value then max else value

-- explorerAddress from the cursor and the limit: the page, and the next cursor where there is one.
unfoldable pub page_of : List ExplorerTx → ℤ → ℤ → List ExplorerTx × Option ℤ
page_of txs given limit =
    let cursor = if ltb_ℤ given (pos 0) then pos 0 else given in
    let count = pos (length txs) in
    let reach = add_int cursor limit in
    let end = if ltb_ℤ count reach then count else reach in
    (
      if ltb_ℤ cursor count
          then take (pos_part end - pos_part cursor) (drop (pos_part cursor) txs)
          else [],
      if ltb_ℤ end count then some end else none,
    )
