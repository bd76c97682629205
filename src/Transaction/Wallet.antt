-- ===== src/Transaction/Wallet.antt =====
-- NewEVMTransaction followed by Verify.
use pokoinpos.Prelude.{
  ◌≡◌, refl, sym, subst, ap, ◌∙◌, true, false, Option, none, some, ◌++◌, arith, Option-cases, inl,
  inr,
}
use pokoinpos.Prelude.Int.{ℤ, pos, negsuc, eqb_ℤ, ◌*ℤ◌}
use pokoinpos.Prelude.Run.{done}
use pokoinpos.Text.{
  Text, txt, is_empty, text_eq, text_eq_iff, equal_fold, trim_space, trim_prefix, to_lower,
  has_prefix,
}
use pokoinpos.Text.Case.{to_lower_idem}
use pokoinpos.Tx.{SignedTransaction, is_amm, is_evm}
use pokoinpos.Platform.{Platform, EvmTransaction}
use pokoinpos.Transaction.Normal.{decode_pokoin_swap_calldata}
use pokoinpos.Transaction.Verify.{verify, verify_evm, decode_evm, evm_unit}
use pokoinpos.Transaction.Make.{new_evm_transaction, of_evm, whole_amount, no_transaction}

equal_fold-to_lower : (a : Text) → equal_fold a (to_lower a) ≡ true
unfolding equal_fold
equal_fold-to_lower a = (text_eq_iff (to_lower a) (to_lower (to_lower a))).1 (sym (to_lower_idem a))

equal_fold-to_lower' : (a : Text) → equal_fold (to_lower a) a ≡ true
unfolding equal_fold
equal_fold-to_lower' a = (text_eq_iff (to_lower (to_lower a)) (to_lower a)).1 (to_lower_idem a)

-- A whole amount gives the value back.
whole_amount-value :
    (value : Option ℤ) (amount : ℤ)
    → whole_amount value ≡ some amount
    → (v : ℤ) × (value ≡ some v) × (eqb_ℤ v (amount *ℤ evm_unit) ≡ true)
unfolding whole_amount ◌*ℤ◌
whole_amount-value none amount e = cc
whole_amount-value (some (negsuc n)) amount e = cc
whole_amount-value (some (pos v)) amount e = (pos v, refl, ground arith)

-- The transaction that NewEVMTransaction makes of a transfer or a call.
abbrev made : Text → ℤ → EvmTransaction → Text → Text → ℤ → SignedTransaction
made normalized chain tx from to amount = record no_transaction {
  id = to_lower tx.hash;
  from = to_lower from;
  to = to_lower to;
  amount = amount;
  signature = txt "evm:" ++ normalized;
  kind = txt "evm";
  nonce = tx.nonce;
  raw = txt "0x" ++ normalized;
  chain_id = chain;
}

some_inj : {A : Type 0} {a b : A} → some a ≡ some b → a ≡ b
some_inj e = cc

option-then :
    {A B : Type 0} (o : Option A) (f : A → Option B) {b : B}
    → elim o [ none ↦ none | some a ↦ f a ] ≡ some b
    → (a : A) × (o ≡ some a) × (f a ≡ some b)
option-then (some a) f h = (a, refl, h)
option-then none f h = cc

module _ (pf : Platform) where
  made_decoded :
      (normalized : Text) (chain : ℤ) (tx : EvmTransaction) (from to : Text) (amount : ℤ)
      → decode_evm pf (made normalized chain tx from to amount)
        ≡ pf.decode_transaction (txt "0x" ++ normalized)
  unfolding decode_evm trim_prefix
  made_decoded normalized chain tx from to amount = refl

  made_verified :
      (normalized : Text) (chain : ℤ) (tx : EvmTransaction) (from to : Text) (amount v : ℤ)
      → pf.decode_transaction (txt "0x" ++ normalized) ≡ some tx
      → pf.sender chain tx ≡ some from
      → tx.to ≡ some to
      → tx.value ≡ some v
      → eqb_ℤ v (amount *ℤ evm_unit) ≡ true
      → let s = made normalized chain tx from to amount in verify_evm pf s s.from ≡ (true, s)
  unfolding verify_evm is_amm has_prefix
  made_verified normalized chain tx from to amount v decoded sent ct cv whole =
      let s = made normalized chain tx from to amount in
      ground (
        arith,
        made_decoded normalized chain tx from to amount,
        equal_fold-to_lower from,
        equal_fold-to_lower tx.hash,
        equal_fold-to_lower to,
      )

  made-verify :
      (normalized : Text) (chain : ℤ) (tx : EvmTransaction) (from to : Text) (amount : ℤ)
      → let s = made normalized chain tx from to amount in
        verify pf s s.from ≡ done (verify_evm pf s s.from)
  unfolding verify is_evm text_eq
  made-verify normalized chain tx from to amount = refl

  -- The transaction is that of a transfer or a call, where it has a receiver and is no swap.
  of_evm-made :
      (raw : Text) (chain : ℤ) (tx : EvmTransaction) (from : Text) (amount : ℤ)
      → let s = of_evm pf raw chain tx from amount in
        is_amm s ≡ false
        → is_empty s.to ≡ false
        → (to : Text) × (tx.to ≡ some to)
          × (s ≡ made (trim_prefix (trim_space raw) (txt "0x")) chain tx from to amount)
  unfolding of_evm is_amm has_prefix decode_pokoin_swap_calldata to_lower trim_prefix
  of_evm-made raw chain tx from amount plain has_to =
      elim (Option-cases (decode_pokoin_swap_calldata pf tx.payload)) [
        | inr (amm, swap) ↦ absurd (ground arith)
        | inl no_swap ↦ elim (Option-cases tx.to) [
          | inl nobody ↦ absurd (ground arith)
          | inr (to, paid) ↦ (to, paid, rw (no_swap, paid))
        ]
      ]

  -- What NewEVMTransaction makes of the raw transaction of a wallet passes Verify as it is, where it
  -- has a receiver and is no swap.
  pub new_evm_transaction-verify :
      (raw : Text) (chain : ℤ) (s : SignedTransaction)
      → new_evm_transaction pf raw chain ≡ some s
      → is_amm s ≡ false
      → is_empty s.to ≡ false
      → verify pf s s.from ≡ done (true, s)
  unfolding new_evm_transaction
  new_evm_transaction-verify raw chain s e plain has_to =
      let normalized = trim_prefix (trim_space raw) (txt "0x") in
      let (tx, decoded, e1) = option-then (pf.decode_transaction (txt "0x" ++ normalized)) _ e in
      let (from, sent, e2) = option-then (pf.sender chain tx) _ e1 in
      let (amount, whole, e3) = option-then (whole_amount tx.value) _ e2 in
      let is_s : of_evm pf raw chain tx from amount ≡ s = some_inj e3 in
      let (to, paid, same) =
        of_evm-made raw chain tx from amount (ap is_amm is_s ∙ plain)
          (ap (λ x. is_empty x.to) is_s ∙ has_to) in
      let (v, value, exact) = whole_amount-value tx.value amount whole in
      subst (λ x. verify pf x x.from ≡ done (true, x)) (sym same ∙ is_s)
        (made-verify normalized chain tx from to amount
          ∙ ap done
              (made_verified normalized chain tx from to amount v decoded sent paid value exact))
