-- ===== src/Transaction/Conservation.antt =====
-- The accounts before and after each branch of Transaction.
use pokoinpos.Prelude.{
  ◌≡◌, true, false, ◌&&◌, Option, none, some, arith, inl, inr, ◌⊎◌, Option-cases, Bool-cases,
}
use pokoinpos.Prelude.Int.{ℤ, pos, ◌≤ℤ◌, ltb_ℤ}
use pokoinpos.Prelude.Run.{done, Run-cases}
use pokoinpos.Text.{Text, to_lower}
use pokoinpos.Tx.{SignedTransaction, is_evm, is_amm}
use pokoinpos.Ledger.{Ledger, balance_of}
use pokoinpos.Ledger.Books.{taken, paid}
use pokoinpos.Evm.{EvmStateAdapter, run_calls, new_evm_state_adapter}
use pokoinpos.Platform.{Platform, EvmRun}
use pokoinpos.Transaction.Verify.{verify, decode_evm}
use pokoinpos.Transaction.Replay.{verify_same}
use pokoinpos.Transaction.Coins.{
  IsSolvent, coins, transfer_coins_conserves, moved_lem, taken-IsFunded, covered,
}
use pokoinpos.Transaction.Apply.{
  transfer_coins, transfer_verified, apply_evm_contract_transaction, contract_value, contract_done,
  evm_run, transfer_branch,
}

contract_done-accounts :
    (t : SignedTransaction) (to : Option Text) (run : EvmRun) (s : EvmStateAdapter) (l : Ledger)
    → (contract_done t to run s l).accounts ≡ (contract_value t to l).accounts
unfolding contract_done
contract_done-accounts t to run s l = ground arith

-- A step that creates no PKN.
abbrev pub CreatesNone : Ledger → Ledger → Type 0
CreatesNone l' l = IsSolvent l' × (coins l' ≤ℤ coins l)

pub CreatesNone-same : (l' l : Ledger) → l'.accounts ≡ l.accounts → IsSolvent l → CreatesNone l' l
CreatesNone-same l' l e h = rw e (h, omega arith)

-- The account that is paid is `to` in lower case; a creation pays nobody.
contract_value-accounts :
    (t : SignedTransaction) (to : Option Text) (l : Ledger)
    → ltb_ℤ (pos 0) t.amount ≡ true
    → (contract_value t to l).accounts ≡ elim to [
      | none ↦ taken t.from t.amount l.accounts
      | some addr ↦ paid (to_lower addr) t.amount (taken t.from t.amount l.accounts)
    ]
unfolding contract_value
contract_value-accounts t none l p = ground arith
contract_value-accounts t (some addr) l p = ground arith

positive : (x : ℤ) → ltb_ℤ (pos 0) x ≡ true → pos 0 ≤ℤ x
positive x h = ground arith

le_of_eq : (x y : ℤ) → x ≡ y → x ≤ℤ y
le_of_eq x y e = rw e (omega arith)

CreatesNone-paid :
    (t : SignedTransaction) (to : Option Text) (l : Ledger)
    → IsSolvent l
    → ltb_ℤ (pos 0) t.amount ≡ true
    → ltb_ℤ (balance_of l t.from) t.amount ≡ false
    → CreatesNone (contract_value t to l) l
CreatesNone-paid t none l h p cov = rw (contract_value-accounts t none l p) (
    taken-IsFunded t.from t.amount l.accounts h (positive t.amount p)
      (covered (balance_of l t.from) t.amount cov))
CreatesNone-paid t (some addr) l h p cov = rw (contract_value-accounts t (some addr) l p) (
    let (funded, same) =
      moved_lem t.from (to_lower addr) t.amount l.accounts h (positive t.amount p)
        (covered (balance_of l t.from) t.amount cov) in
    (funded, le_of_eq _ _ same))

contract_value_nothing :
    (t : SignedTransaction) (to : Option Text) (l : Ledger)
    → ltb_ℤ (pos 0) t.amount ≡ false
    → contract_value t to l ≡ l
unfolding contract_value
contract_value_nothing t to l p = ground arith

CreatesNone-value :
    (t : SignedTransaction) (to : Option Text) (l : Ledger)
    → IsSolvent l
    → (ltb_ℤ (pos 0) t.amount && ltb_ℤ (balance_of l t.from) t.amount) ≡ false
    → CreatesNone (contract_value t to l) l
CreatesNone-value t to l h cov = elim (Bool-cases (ltb_ℤ (pos 0) t.amount)) [
  | inl p ↦ CreatesNone-paid t to l h p (ground arith)
  | inr p ↦ rw (contract_value_nothing t to l p) (h, omega arith)
]

module _ (pf : Platform) where
  contract_accounts :
      (t : SignedTransaction) (l l' : Ledger)
      → apply_evm_contract_transaction pf t l ≡ some (true, l')
      → (to : Option Text) × ((ltb_ℤ (pos 0) t.amount && ltb_ℤ (balance_of l t.from) t.amount)
          ≡ false)
        × (l'.accounts ≡ (contract_value t to l).accounts)
  unfolding apply_evm_contract_transaction
  contract_accounts t l l' e = elim (Option-cases (decode_evm pf t)) [
    | inl missing ↦ (none, ground arith, ground arith)
    | inr (tx, found) ↦
        let run = evm_run pf t tx l in
        let s = run_calls run.calls (new_evm_state_adapter l.evm_accounts) in
        (tx.to, ground arith, ground (arith, contract_done-accounts t tx.to run s l))
  ]

  contract-CreatesNone :
      (t : SignedTransaction) (l l' : Ledger)
      → IsSolvent l
      → apply_evm_contract_transaction pf t l ≡ some (true, l')
      → CreatesNone l' l
  contract-CreatesNone t l l' h e =
      let (to, cov, same) = contract_accounts t l l' e in rw same (CreatesNone-value t to l h cov)

  transfer_coins-CreatesNone :
      (t : SignedTransaction) (l l' : Ledger)
      → IsSolvent l
      → ltb_ℤ t.amount (pos 0) ≡ false
      → transfer_coins t l ≡ (true, l')
      → CreatesNone l' l
  transfer_coins-CreatesNone t l l' h p e =
      let (solvent, same) = transfer_coins_conserves t l l' h p e in
      (solvent, le_of_eq (coins l') (coins l) same)

  -- Which of the two ends of Transaction a transfer took.
  pub transfer_verified_cases :
      (t : SignedTransaction) (l l' : Ledger)
      → transfer_verified pf t l ≡ (true, l')
      → (transfer_coins t l ≡ (true, l'))
        ⊎ ((is_evm t ≡ true) × (apply_evm_contract_transaction pf t l ≡ some (true, l')))
  unfolding transfer_verified
  transfer_verified_cases t l l' e = elim (Option-cases (apply_evm_contract_transaction pf t l)) [
    | inl missing ↦ inl (ground arith)
    | inr (r, found) ↦ ground arith
  ]

  -- A transfer that went through is its authentic self.
  pub transfer_branch_passed :
      (t t' : SignedTransaction) (l l' : Ledger)
      → is_amm t ≡ false
      → transfer_branch pf t l ≡ done (true, t', l')
      → (ltb_ℤ t.amount (pos 0) ≡ false) × (transfer_verified pf t l ≡ (true, l'))
  unfolding transfer_branch
  transfer_branch_passed t t' l l' plain e = elim (Run-cases (verify pf t t.from)) [
    | inl p ↦ ground arith
    | inr ((ok, t₁), p) ↦ ground (arith, verify_same pf t t₁ t.from ok plain p)
  ]

  pub transfer_branch-CreatesNone :
      (t t' : SignedTransaction) (l l' : Ledger)
      → is_amm t ≡ false
      → IsSolvent l
      → transfer_branch pf t l ≡ done (true, t', l')
      → CreatesNone l' l
  transfer_branch-CreatesNone t t' l l' plain h e =
      let (p, v) = transfer_branch_passed t t' l l' plain e in
      elim (transfer_verified_cases t l l' v) [
        | inl moved ↦ transfer_coins-CreatesNone t l l' h p moved
        | inr (evm, ran) ↦ contract-CreatesNone t l l' h ran
      ]
