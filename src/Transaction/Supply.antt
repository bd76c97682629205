-- ===== src/Transaction/Supply.antt =====
-- What each kind of transaction does to the sum of all PKN balances.
use pokoinpos.Prelude.{
  ◌<◌, ◌≡◌, refl, true, false, arith, inl, inr, Option-cases, if◌then◌else◌, ◌⊎◌,
}
use pokoinpos.Prelude.Int.{ℤ, pos, pos_part, ◌≤ℤ◌, ◌+ℤ◌, ltb_ℤ, leb_ℤ}
use pokoinpos.Prelude.Run.{done, Run-cases}
use pokoinpos.GoMap.{at, lookup-insert}
use pokoinpos.Text.{text_eq_refl}
use pokoinpos.Tx.{
  SignedTransaction, NftPayload, is_evm, is_amm, is_mint, is_nft_mint, is_nft_transfer,
}
use pokoinpos.Ledger.{Ledger, balance_of, is_native_validator_account}
use pokoinpos.Ledger.Books.{paid, paid_lem}
use pokoinpos.Platform.{Platform}
use pokoinpos.Transaction.Normal.{valid_nft_mint, valid_nft_transfer}
use pokoinpos.Transaction.Verify.{verify}
use pokoinpos.Transaction.Steps.{mint_nft, transfer_nft}
use pokoinpos.Transaction.Coins.{IsSolvent, coins, transfer_coins_conserves}
use pokoinpos.Transaction.Replay.{verify_same}
use pokoinpos.Transaction.Conservation.{
  CreatesNone-same, transfer_branch-CreatesNone, transfer_branch_passed, transfer_verified_cases,
}
use pokoinpos.Transaction.Apply.{
  mint_coins, mint_branch, transfer_branch, nft_mint_branch, nft_transfer_branch, transaction,
}

mint_nft-accounts :
    (t : SignedTransaction) (n : NftPayload) (l : Ledger) → (mint_nft t n l).2.accounts ≡ l.accounts
unfolding mint_nft
mint_nft-accounts t n l = ground arith

transfer_nft-accounts :
    (t : SignedTransaction) (n : NftPayload) (l : Ledger)
    → (transfer_nft t n l).2.accounts ≡ l.accounts
unfolding transfer_nft
transfer_nft-accounts t n l = ground arith

-- The balance of the sender lets a mint pass, and the receiver is paid.
mint_coins-accounts :
    (t : SignedTransaction) (l : Ledger) → (mint_coins t l).accounts ≡ paid t.to t.amount l.accounts
unfolding mint_coins
mint_coins-accounts t l = refl

mint_coins-validator :
    (t : SignedTransaction) (l : Ledger)
    → at false t.to (mint_coins t l).validators
      ≡ (if is_native_validator_account t.to then true else at false t.to l.validators)
unfolding mint_coins
mint_coins-validator t l =
    ground (arith, lookup-insert t.to t.to true l.validators, text_eq_refl t.to)

one_is_positive : (x : ℤ) → ltb_ℤ x (pos 1) ≡ false → pos 0 ≤ℤ x
one_is_positive x h = ground arith

module _ (pf : Platform) where
  nft_mint-accounts :
      (t t' : SignedTransaction) (l l' : Ledger)
      → nft_mint_branch pf t l ≡ done (true, t', l')
      → l'.accounts ≡ l.accounts
  unfolding nft_mint_branch
  nft_mint-accounts t t' l l' e =
      let t₁ = (valid_nft_mint t).1 in
      elim (Run-cases (verify pf t₁ t₁.from)) [
        | inl p ↦ ground arith
        | inr ((ok, t₂), p) ↦ elim (Option-cases t₂.nft) [
          | inl missing ↦ ground arith
          | inr (n, found) ↦ ground (arith, mint_nft-accounts t₂ n l)
        ]
      ]

  nft_transfer-accounts :
      (t t' : SignedTransaction) (l l' : Ledger)
      → nft_transfer_branch pf t l ≡ done (true, t', l')
      → l'.accounts ≡ l.accounts
  unfolding nft_transfer_branch
  nft_transfer-accounts t t' l l' e =
      let t₁ = (valid_nft_transfer t).1 in
      elim (Run-cases (verify pf t₁ t₁.from)) [
        | inl p ↦ ground arith
        | inr ((ok, t₂), p) ↦ elim (Option-cases t₂.nft) [
          | inl missing ↦ ground arith
          | inr (n, found) ↦ ground (arith, transfer_nft-accounts t₂ n l)
        ]
      ]

  -- The branch that an applied transaction took.
  taken_branch :
      (t t' : SignedTransaction) (l l' : Ledger)
      → is_amm t ≡ false
      → is_mint t ≡ false
      → transaction pf t l ≡ done (true, t', l')
      → (l'.accounts ≡ l.accounts)
        ⊎ ((is_nft_mint t ≡ false)
            × (is_nft_transfer t ≡ false)
            × (transfer_branch pf t l ≡ done (true, t', l')))
  unfolding transaction
  taken_branch t t' l l' plain m e =
      ground (arith, nft_mint-accounts t t' l l', nft_transfer-accounts t t' l l')

  -- From balances that are not negative and together fit an `int`, no applied transaction but a mint
  -- and those of the AMM raises the sum of all balances, and the balances stay such.
  pub coins_never_created :
      (t t' : SignedTransaction) (l l' : Ledger)
      → is_amm t ≡ false
      → is_mint t ≡ false
      → IsSolvent l
      → transaction pf t l ≡ done (true, t', l')
      → IsSolvent l' × (coins l' ≤ℤ coins l)
  coins_never_created t t' l l' plain m h e = elim (taken_branch t t' l l' plain m e) [
    | inl same ↦ CreatesNone-same l' l same h
    | inr (a, b, moved) ↦ transfer_branch-CreatesNone pf t t' l l' plain h moved
  ]

  -- A native transfer, signed with an RSA key, conserves the sum of all balances exactly, also where
  -- the sender is the receiver.
  pub native_transfer_conserves :
      (t t' : SignedTransaction) (l l' : Ledger)
      → is_amm t ≡ false
      → is_mint t ≡ false
      → is_evm t ≡ false
      → IsSolvent l
      → transaction pf t l ≡ done (true, t', l')
      → IsSolvent l' × (coins l' ≡ coins l)
  native_transfer_conserves t t' l l' plain m native h e = elim (taken_branch t t' l l' plain m e) [
    | inl same ↦ rw same (h, refl)
    | inr (a, b, moved) ↦
        let (p, v) = transfer_branch_passed pf t t' l l' plain moved in
        elim (transfer_verified_cases pf t l l' v) [
          | inl w ↦ transfer_coins_conserves t l l' h p w
          | inr (evm, ran) ↦ absurd (ground arith)
        ]
  ]

  mint_passed :
      (t t' : SignedTransaction) (l l' : Ledger)
      → is_amm t ≡ false
      → is_nft_mint t ≡ false
      → is_nft_transfer t ≡ false
      → is_mint t ≡ true
      → transaction pf t l ≡ done (true, t', l')
      → (ltb_ℤ t.amount (pos 1) ≡ false)
        × (leb_ℤ (balance_of l t.from) (pos 0) ≡ false)
        × (l' ≡ mint_coins t l)
  unfolding transaction mint_branch
  mint_passed t t' l l' plain nm nt m e = elim (Run-cases (verify pf t t.from)) [
    | inl p ↦ ground arith
    | inr ((ok, t₁), p) ↦ ground (arith, verify_same pf t t₁ t.from ok plain p)
  ]

  -- An applied mint came from an account with a positive balance and raises the sum of all balances
  -- by its amount, as long as the sum fits an `int`; a receiver with a native name is a validator
  -- afterwards.
  pub mint_raises_supply :
      (t t' : SignedTransaction) (l l' : Ledger)
      → is_amm t ≡ false
      → is_nft_mint t ≡ false
      → is_nft_transfer t ≡ false
      → is_mint t ≡ true
      → IsSolvent l
      → pos_part (coins l +ℤ t.amount) < 9223372036854775808
      → transaction pf t l ≡ done (true, t', l')
      → IsSolvent l'
        × (coins l' ≡ coins l +ℤ t.amount)
        × (leb_ℤ (balance_of l t.from) (pos 0) ≡ false)
        × (at false t.to l'.validators
            ≡ (if is_native_validator_account t.to then true else at false t.to l.validators))
  mint_raises_supply t t' l l' plain nm nt m h fits e =
      let (p, rich, same) = mint_passed t t' l l' plain nm nt m e in
      let (each, sum) =
        paid_lem t.to t.amount l.accounts h.each (one_is_positive t.amount p) fits in
      rw same (
        rw (mint_coins-accounts t l)
          (record { each = each; bounded = rw sum fits }, sum, rich, mint_coins-validator t l))
