-- ===== src/Transaction/Coins.antt =====
-- The sum of all PKN balances, and what moving an amount does to it.
use pokoinpos.Prelude.{◌<◌, ◌≡◌, refl, true, false, arith}
use pokoinpos.Prelude.Int.{ℤ, pos, pos_part, ◌≤ℤ◌, ◌+ℤ◌, ltb_ℤ, int_laws}
use pokoinpos.Text.{Text}
use pokoinpos.GoMap.{Map, at}
use pokoinpos.GoMap.Sum.{total}
use pokoinpos.Tx.{SignedTransaction}
use pokoinpos.Ledger.{Ledger, balance_of}
use pokoinpos.Ledger.Books.{AreBalances, taken, taken_lem, paid, paid_lem, total_nonneg}
use pokoinpos.Transaction.Steps.{move_balance}
use pokoinpos.Transaction.Apply.{transfer_coins}

-- The balances of a ledger are sums of money, and together they fit an `int`.
pub record IsFunded (accounts : Map ℤ) : Type 0 where
  pub each : AreBalances accounts
  pub bounded : pos_part (total accounts) < 9223372036854775808

less : (t' t y : ℤ) → pos 0 ≤ℤ y → t' +ℤ y ≡ t → t' ≤ℤ t
unfolding ◌+ℤ◌
less t' t y p e = grind int_laws

still_bounded :
    (t' t : ℤ)
    → t' ≤ℤ t
    → pos 0 ≤ℤ t'
    → pos_part t < 9223372036854775808
    → pos_part t' < 9223372036854775808
still_bounded t' t le p h = ground arith

-- What a covered amount does on its way from one account to another, or to itself.
module _ (from to : Text) (x : ℤ) (m : Map ℤ) where
  pub moved_lem :
      IsFunded m
      → pos 0 ≤ℤ x
      → x ≤ℤ at (pos 0) from m
      → IsFunded (paid to x (taken from x m)) × (total (paid to x (taken from x m)) ≡ total m)
  moved_lem h p le =
      let (each, sum) = taken_lem from x m h.each p le in
      let (each', sum') = paid_lem to x (taken from x m) each p (rw sum h.bounded) in
      (record { each = each'; bounded = rw (sum', sum) h.bounded }, rw (sum', sum) refl)

module _ (from : Text) (x : ℤ) (m : Map ℤ) where
  pub taken-IsFunded :
      IsFunded m
      → pos 0 ≤ℤ x
      → x ≤ℤ at (pos 0) from m
      → IsFunded (taken from x m) × (total (taken from x m) ≤ℤ total m)
  taken-IsFunded h p le =
      let (each, sum) = taken_lem from x m h.each p le in
      let below = less (total (taken from x m)) (total m) x p sum in
      (
        record {
          each = each;
          bounded =
              still_bounded (total (taken from x m)) (total m) below
                (total_nonneg (taken from x m) each) h.bounded;
        },
        below,
      )

-- A ledger whose PKN is in order, and the relation of a step that creates none.
abbrev pub IsSolvent : Ledger → Type 0
IsSolvent l = IsFunded l.accounts

abbrev pub coins : Ledger → ℤ
coins l = total l.accounts

-- The amount of a transfer is covered where the test for an overdraft passes.
pub covered : (b x : ℤ) → ltb_ℤ b x ≡ false → x ≤ℤ b
covered b x h = ground arith

pub nonneg : (x : ℤ) → ltb_ℤ x (pos 0) ≡ false → pos 0 ≤ℤ x
nonneg x h = ground arith

transfer_coins-accounts :
    (t : SignedTransaction) (l l' : Ledger)
    → transfer_coins t l ≡ (true, l')
    → (ltb_ℤ (balance_of l t.from) t.amount ≡ false)
      × (l'.accounts ≡ paid t.to t.amount (taken t.from t.amount l.accounts))
unfolding transfer_coins move_balance
transfer_coins-accounts t l l' e = ground arith

pub transfer_coins_conserves :
    (t : SignedTransaction) (l l' : Ledger)
    → IsSolvent l
    → ltb_ℤ t.amount (pos 0) ≡ false
    → transfer_coins t l ≡ (true, l')
    → IsSolvent l' × (coins l' ≡ coins l)
transfer_coins_conserves t l l' h p e =
    let (cov, eq) = transfer_coins-accounts t l l' e in
    rw eq (
      moved_lem t.from t.to t.amount l.accounts h (nonneg t.amount p)
        (covered (balance_of l t.from) t.amount cov))
