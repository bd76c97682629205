-- ===== src/Transaction/Failure.antt =====
-- The paths of Transaction that return false.
use pokoinpos.Prelude.{◌≡◌, Bool, true, false, none, some, arith, inl, inr, Option-cases}
use pokoinpos.Prelude.Int.{ℤ}
use pokoinpos.Prelude.Run.{done, Run-cases}
use pokoinpos.GoMap.{lookup}
use pokoinpos.Tx.{SignedTransaction, NftPayload, AmmPayload, AmmPool}
use pokoinpos.Assets.{normalize_pool_id}
use pokoinpos.Amm.{quote_swap, apply_swap}
use pokoinpos.Amm.Quote.{apply_swap-quote_swap}
use pokoinpos.Ledger.{Ledger}
use pokoinpos.Platform.{Platform}
use pokoinpos.Transaction.Normal.{valid_amm, valid_nft_mint, valid_nft_transfer}
use pokoinpos.Transaction.Verify.{verify}
use pokoinpos.GoMap.{lookup}
use pokoinpos.Transaction.Steps.{Applied, mint_nft, transfer_nft}
use pokoinpos.Transaction.AmmActions.{
  asset_credit, asset_debit, amm_create_pool, amm_add_liquidity, swap_paid, swap_on, amm_swap,
  amm_action, finish, amm_checked, apply_amm_transaction,
}
use pokoinpos.Transaction.Apply.{
  transfer_coins, transfer_verified, apply_evm_contract_transaction, nft_mint_branch,
  nft_transfer_branch, mint_branch, transfer_branch, transaction,
}

-- The handlers of the switch and the NFT handlers leave the ledger alone when they refuse.
mint_nft_refused :
    (t : SignedTransaction) (n : NftPayload) (l : Ledger)
    → (mint_nft t n l).0 ≡ false
    → (mint_nft t n l).2 ≡ l
unfolding mint_nft
mint_nft_refused t n l e = ground arith

transfer_nft_refused :
    (t : SignedTransaction) (n : NftPayload) (l : Ledger)
    → (transfer_nft t n l).0 ≡ false
    → (transfer_nft t n l).2 ≡ l
unfolding transfer_nft
transfer_nft_refused t n l e = ground arith

asset_credit_refused :
    (t : SignedTransaction) (a : AmmPayload) (l : Ledger)
    → (asset_credit t a l).0 ≡ false
    → (asset_credit t a l).2 ≡ l
unfolding asset_credit
asset_credit_refused t a l e = ground arith

asset_debit_refused :
    (t : SignedTransaction) (a : AmmPayload) (l : Ledger)
    → (asset_debit t a l).0 ≡ false
    → (asset_debit t a l).2 ≡ l
unfolding asset_debit
asset_debit_refused t a l e = ground arith

amm_create_pool_refused :
    (t : SignedTransaction) (a : AmmPayload) (l : Ledger)
    → (amm_create_pool t a l).0 ≡ false
    → (amm_create_pool t a l).2 ≡ l
unfolding amm_create_pool
amm_create_pool_refused t a l e = ground arith

amm_add_liquidity_refused :
    (t : SignedTransaction) (a : AmmPayload) (l : Ledger)
    → (amm_add_liquidity t a l).0 ≡ false
    → (amm_add_liquidity t a l).2 ≡ l
unfolding amm_add_liquidity
amm_add_liquidity_refused t a l e = ground arith

swap_paid_moves :
    (t : SignedTransaction) (a : AmmPayload) (pool : AmmPool) (out : ℤ) (l : Ledger)
    → (apply_swap pool a.asset_in a.amount_in out).0 ≡ true
    → (swap_paid t a pool out l).0 ≡ true
unfolding swap_paid
swap_paid_moves t a pool out l e = rw e

-- A swap is refused before the debit or not at all: what was quoted can be moved.
swap_on_refused :
    (t : SignedTransaction) (a : AmmPayload) (pool : AmmPool) (l : Ledger) (r : Applied)
    → swap_on t a pool l ≡ done r
    → r.0 ≡ false
    → r.2 ≡ l
unfolding swap_on
swap_on_refused t a pool l r e no_swap = elim (Run-cases (quote_swap pool a.asset_in a.amount_in)) [
  | inl p ↦ cc (rw p at e)
  | inr (none, q) ↦ ground arith
  | inr (some out, q) ↦
      ground (
        arith,
        swap_paid_moves t a pool out l (apply_swap-quote_swap pool a.asset_in a.amount_in q),
      )
]

amm_swap_refused :
    (t : SignedTransaction) (a : AmmPayload) (l : Ledger) (r : Applied)
    → amm_swap t a l ≡ done r
    → r.0 ≡ false
    → r.2 ≡ l
unfolding amm_swap
amm_swap_refused t a l r e no_swap =
    elim (Option-cases (lookup (normalize_pool_id a.pool_id) l.amm_pools)) [
      | inl missing ↦ ground arith
      | inr (pool, found) ↦ ground (arith, swap_on_refused t a pool l r)
    ]

amm_action_refused :
    (t : SignedTransaction) (a : AmmPayload) (l : Ledger) (r : Applied)
    → amm_action t a l ≡ done r
    → r.0 ≡ false
    → r.2 ≡ l
unfolding amm_action
amm_action_refused t a l r e no_effect = ground (
  arith,
  asset_credit_refused t a l,
  asset_debit_refused t a l,
  amm_create_pool_refused t a l,
  amm_add_liquidity_refused t a l,
  amm_swap_refused t a l r,
)

finish_refused : (r : Applied) → (finish r).0 ≡ false → (r.0 ≡ false) × ((finish r).2 ≡ r.2)
unfolding finish
finish_refused r e = ground arith

amm_checked_refused :
    (t : SignedTransaction) (l : Ledger) (r : Applied)
    → amm_checked t l ≡ done r
    → r.0 ≡ false
    → r.2 ≡ l
unfolding amm_checked
amm_checked_refused t l r e no_effect = elim (Option-cases t.amm) [
  | inl missing ↦ ground arith
  | inr (a, found) ↦ elim (Run-cases (amm_action t a l)) [
    | inl p ↦ ground arith
    | inr (q, p) ↦ ground (arith, amm_action_refused t a l q p, finish_refused q)
  ]
]

-- Equal but for the accounts of the virtual machine.
abbrev pub SameLedger : Ledger → Ledger → Type 0
SameLedger l' l = record l' { evm_accounts = l.evm_accounts } ≡ l

module _ (pf : Platform) where
  apply_amm_refused :
      (t : SignedTransaction) (l : Ledger) (r : Applied)
      → apply_amm_transaction pf t l ≡ done r
      → r.0 ≡ false
      → r.2 ≡ l
  unfolding apply_amm_transaction
  apply_amm_refused t l r e no_effect =
      let t₁ = (valid_amm t).1 in
      elim (Run-cases (verify pf t₁ t₁.from)) [
        | inl p ↦ ground arith
        | inr ((ok, t₂), p) ↦ ground (arith, amm_checked_refused t₂ l r)
      ]

  nft_mint_refused :
      (t : SignedTransaction) (l : Ledger) (r : Applied)
      → nft_mint_branch pf t l ≡ done r
      → r.0 ≡ false
      → r.2 ≡ l
  unfolding nft_mint_branch
  nft_mint_refused t l r e no_effect =
      let t₁ = (valid_nft_mint t).1 in
      elim (Run-cases (verify pf t₁ t₁.from)) [
        | inl p ↦ ground arith
        | inr ((ok, t₂), p) ↦ elim (Option-cases t₂.nft) [
          | inl missing ↦ ground arith
          | inr (n, found) ↦ ground (arith, mint_nft_refused t₂ n l)
        ]
      ]

  nft_transfer_refused :
      (t : SignedTransaction) (l : Ledger) (r : Applied)
      → nft_transfer_branch pf t l ≡ done r
      → r.0 ≡ false
      → r.2 ≡ l
  unfolding nft_transfer_branch
  nft_transfer_refused t l r e no_effect =
      let t₁ = (valid_nft_transfer t).1 in
      elim (Run-cases (verify pf t₁ t₁.from)) [
        | inl p ↦ ground arith
        | inr ((ok, t₂), p) ↦ elim (Option-cases t₂.nft) [
          | inl missing ↦ ground arith
          | inr (n, found) ↦ ground (arith, transfer_nft_refused t₂ n l)
        ]
      ]

  mint_refused :
      (t : SignedTransaction) (l : Ledger) (r : Applied)
      → mint_branch pf t l ≡ done r
      → r.0 ≡ false
      → r.2 ≡ l
  unfolding mint_branch
  mint_refused t l r e no_effect = elim (Run-cases (verify pf t t.from)) [
    | inl p ↦ ground arith
    | inr ((ok, t₁), p) ↦ ground arith
  ]

  contract_refused :
      (t : SignedTransaction) (l : Ledger) (r : Bool × Ledger)
      → apply_evm_contract_transaction pf t l ≡ some r
      → r.0 ≡ false
      → SameLedger r.1 l
  unfolding apply_evm_contract_transaction
  contract_refused t l r e no_effect = ground arith

  transfer_verified_refused :
      (t : SignedTransaction) (l : Ledger)
      → (transfer_verified pf t l).0 ≡ false
      → SameLedger (transfer_verified pf t l).1 l
  unfolding transfer_verified transfer_coins
  transfer_verified_refused t l no_effect =
      elim (Option-cases (apply_evm_contract_transaction pf t l)) [
        | inl missing ↦ ground arith
        | inr (r, found) ↦ ground (arith, contract_refused t l r found)
      ]

  transfer_refused :
      (t : SignedTransaction) (l : Ledger) (r : Applied)
      → transfer_branch pf t l ≡ done r
      → r.0 ≡ false
      → SameLedger r.2 l
  unfolding transfer_branch
  transfer_refused t l r e no_effect = elim (Run-cases (verify pf t t.from)) [
    | inl p ↦ ground arith
    | inr ((ok, t₁), p) ↦ ground (arith, transfer_verified_refused t₁ l)
  ]

  -- A transaction that is refused, whatever its kind and for whatever reason, leaves the ledger as
  -- it was, except for the accounts of the virtual machine.
  pub transaction_refused :
      (t : SignedTransaction) (l : Ledger) (r : Applied)
      → transaction pf t l ≡ done r
      → r.0 ≡ false
      → SameLedger r.2 l
  unfolding transaction
  transaction_refused t l r e no_effect = ground (
    arith,
    apply_amm_refused t l r,
    nft_mint_refused t l r,
    nft_transfer_refused t l r,
    mint_refused t l r,
    transfer_refused t l r,
  )
