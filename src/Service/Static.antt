-- ===== src/Service/Static.antt =====
-- The ledger's CallEVM, which eth_call makes: the run of the machine is undone.
use pokoinpos.Prelude.{
  ℕ, Bool, true, false, if◌then◌else◌, zero, suc, Option, none, some, List, [], ◌∷◌, ◌++◌, ◌≡◌,
  refl, ap, take,
}
use pokoinpos.Prelude.Int.{pos, negsuc}
use pokoinpos.Text.{Text}
use pokoinpos.GoMap.{Map}
use pokoinpos.Ledger.{Ledger, EvmAccount}
use pokoinpos.Evm.{
  EvmStateAdapter, new_evm_state_adapter, exist, put_account, no_account, Call, create, sub_from,
  add_to, nonce, code, store, destruct, refund, refund_less, log, save, revert, step, run_calls,
  snapshot, revert_to_snapshot, nth, create_account, sub_balance, add_balance, set_nonce, set_code,
  set_state, self_destruct, add_refund, sub_refund, add_log,
}
use pokoinpos.Service.{Gateway}
use pokoinpos.Service.Calls.{call_evm}

-- A call that does not revert to the snapshot that was taken before the run.
unfoldable pub IsInner : Call → Type 0
IsInner (revert (pos zero)) = ⊥
IsInner c = Unit

unfoldable pub AreInner : List Call → Type 0
AreInner [] = Unit
AreInner (c ∷ cs) = IsInner c × AreInner cs

-- The first snapshot holds these accounts.
abbrev Saves : Map EvmAccount → EvmStateAdapter → Type 0
Saves accounts s = nth 0 s.snapshots ≡ some accounts

nth_first :
    (accounts : Map EvmAccount) (saved more : List (Map EvmAccount))
    → nth 0 saved ≡ some accounts
    → nth 0 (saved ++ more) ≡ some accounts
unfolding nth
nth_first accounts [] more e = cc
nth_first accounts (m ∷ saved) more e = e

nth-take :
    (n : ℕ) (accounts : Map EvmAccount) (saved : List (Map EvmAccount))
    → nth 0 saved ≡ some accounts
    → nth 0 (take (suc n) saved) ≡ some accounts
unfolding nth
nth-take n accounts [] e = cc
nth-take n accounts (m ∷ saved) e = e

not-IsInner : ¬ IsInner (revert (pos zero))
unfolding IsInner
not-IsInner i = i

created-Saves :
    (accounts : Map EvmAccount) (known : Bool) (addr : Text) (s : EvmStateAdapter)
    → Saves accounts s
    → Saves accounts (if known then s else put_account s addr no_account)
created-Saves accounts true addr s e = e
created-Saves accounts false addr s e = e

reverted-Saves :
    (accounts : Map EvmAccount) (n : ℕ) (found : Option (Map EvmAccount)) (s : EvmStateAdapter)
    → Saves accounts s
    → Saves accounts (elim found [
      | none ↦ s
      | some saved ↦ record s { accounts = saved; snapshots = take (suc n) s.snapshots }
    ])
reverted-Saves accounts n none s e = e
reverted-Saves accounts n (some saved) s e = nth-take n accounts s.snapshots e

step-Saves :
    (accounts : Map EvmAccount) (c : Call) (s : EvmStateAdapter)
    → IsInner c
    → Saves accounts s
    → Saves accounts (step c s)
unfolding step create_account sub_balance add_balance set_nonce set_code set_state self_destruct
    add_refund sub_refund add_log snapshot revert_to_snapshot
step-Saves accounts (create addr) s i e = created-Saves accounts (exist s addr) addr s e
step-Saves accounts (sub_from addr n) s i e = e
step-Saves accounts (add_to addr n) s i e = e
step-Saves accounts (nonce addr n) s i e = e
step-Saves accounts (code addr c) s i e = e
step-Saves accounts (store addr key value) s i e = e
step-Saves accounts (destruct addr) s i e = e
step-Saves accounts (refund gas) s i e = e
step-Saves accounts (refund_less gas) s i e = e
step-Saves accounts (log event) s i e = e
step-Saves accounts save s i e = nth_first accounts s.snapshots (s.accounts ∷ []) e
step-Saves accounts (revert (negsuc n)) s i e = e
step-Saves accounts (revert (pos zero)) s i e = absurd (not-IsInner i)
step-Saves accounts (revert (pos (suc n))) s i e =
    reverted-Saves accounts n (nth (suc n) s.snapshots) s e

run_calls-Saves :
    (accounts : Map EvmAccount) (cs : List Call) (s : EvmStateAdapter)
    → AreInner cs
    → Saves accounts s
    → Saves accounts (run_calls cs s)
unfolding run_calls AreInner
run_calls-Saves accounts [] s i e = e
run_calls-Saves accounts (c ∷ cs) s (i, is) e =
    run_calls-Saves accounts cs (step c s) is (step-Saves accounts c s i e)

-- Reverting to the first snapshot gives its accounts back.
undone :
    (accounts : Map EvmAccount) (s : EvmStateAdapter)
    → Saves accounts s
    → (revert_to_snapshot s (pos 0)).accounts ≡ accounts
unfolding revert_to_snapshot
undone accounts s e = rw (revert_to_snapshot, e) refl

-- A run of eth_call leaves the ledger as it was, if the machine never reverts to the snapshot that
-- CallEVM takes before it, only to snapshots of its own.
pub call_evm-unchanged :
    (g : Gateway) (from to input : Text) (l : Ledger)
    → AreInner (g.static_call l.evm_accounts from to input).calls
    → (call_evm g from to input l).1 ≡ l
unfolding call_evm snapshot
call_evm-unchanged g from to input l i =
    let started = (snapshot (new_evm_state_adapter l.evm_accounts)).1 in
    let calls = (g.static_call l.evm_accounts from to input).calls in
    let saved = run_calls-Saves l.evm_accounts calls started i (unfold nth in refl) in
    ap (λ a. record l { evm_accounts = a }) (undone l.evm_accounts (run_calls calls started) saved)
