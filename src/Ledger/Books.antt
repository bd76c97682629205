-- ===== src/Ledger/Books.antt =====
-- One map of balances: taking from an entry and paying into an entry.
use pokoinpos.Prelude.{◌<◌, ◌≤◌, ◌≡◌, refl, [], ◌∷◌, arith, inl, inr, Option-cases}
use pokoinpos.Prelude.Int.{
  ℤ, pos, pos_part, neg_part, ◌+ℤ◌, ◌-ℤ◌, ◌≤ℤ◌, add_int, sub_int, add_int_id, sub_int_id, InInt,
  int_laws,
}
use pokoinpos.Text.{Text}
use pokoinpos.GoMap.{Map, lookup, insert, at}
use pokoinpos.GoMap.Keys.{Values, Values-lookup, Values-insert}
use pokoinpos.GoMap.Sum.{total, sum_by-insert, at-le-sum_by, sum_by_nonneg}

-- A balance as the program means it: not negative, and an `int`.
abbrev pub IsBalance : ℤ → Type 0
IsBalance v = (pos 0 ≤ℤ v) × (pos_part v < 9223372036854775808)

abbrev pub AreBalances : Map ℤ → Type 0
AreBalances = Values IsBalance

pub IsBalance-at : (k : Text) (m : Map ℤ) → AreBalances m → IsBalance (at (pos 0) k m)
IsBalance-at k m h = elim (Option-cases (lookup k m)) [
  | inl missing ↦ rw (missing, at) (omega arith, omega arith)
  | inr (v, e) ↦ rw (e, at) (Values-lookup IsBalance k m h e)
]

nonneg-Values : (m : Map ℤ) → AreBalances m → Values (λ v. pos 0 ≤ℤ v) m
nonneg-Values [] h = tt
nonneg-Values ((k, v) ∷ m) h = (h.0.0, nonneg-Values m h.1)

pub total_nonneg : (m : Map ℤ) → AreBalances m → pos 0 ≤ℤ total m
total_nonneg m h = sum_by_nonneg (λ v. v) m (nonneg-Values m h)

pub at-le-total : (k : Text) (m : Map ℤ) → AreBalances m → at (pos 0) k m ≤ℤ total m
at-le-total k m h = (at-le-sum_by (λ v. v) (pos 0) k m refl (nonneg-Values m h)).1

difference_fits : (b x : ℤ) → IsBalance b → pos 0 ≤ℤ x → x ≤ℤ b → InInt (b -ℤ x)
unfolding ◌-ℤ◌
difference_fits b x h p le = (ground arith, ground arith)

difference-IsBalance : (b x : ℤ) → IsBalance b → pos 0 ≤ℤ x → x ≤ℤ b → IsBalance (b -ℤ x)
unfolding ◌-ℤ◌
difference-IsBalance b x h p le = (ground arith, ground arith)

IsBalance-neg : (v : ℤ) → IsBalance v → neg_part v ≤ 9223372036854775808
IsBalance-neg v h = ground arith

sum_fits :
    (b x t : ℤ)
    → IsBalance b
    → pos 0 ≤ℤ x
    → b ≤ℤ t
    → pos_part (t +ℤ x) < 9223372036854775808
    → IsBalance (b +ℤ x)
unfolding ◌+ℤ◌
sum_fits b x t h p le fits = (ground arith, ground arith)

take_total : (t' t b x : ℤ) → t' +ℤ b ≡ t +ℤ (b -ℤ x) → t' +ℤ x ≡ t
take_total t' t b x e = grind int_laws

pay_total : (t' t b x : ℤ) → t' +ℤ b ≡ t +ℤ (b +ℤ x) → t' ≡ t +ℤ x
pay_total t' t b x e = grind int_laws

-- Taking what is there lowers the total by just that.
module _ (k : Text) (x : ℤ) (m : Map ℤ) where
  abbrev pub taken : Map ℤ
  taken = insert k (sub_int (at (pos 0) k m) x) m

  pub taken_lem :
      AreBalances m
      → pos 0 ≤ℤ x
      → x ≤ℤ at (pos 0) k m
      → AreBalances taken × (total taken +ℤ x ≡ total m)
  taken_lem h p le =
      let b = at (pos 0) k m in
      let e : sub_int b x ≡ b -ℤ x =
        sub_int_id b x (difference_fits b x (IsBalance-at k m h) p le) in
      (
        Values-insert IsBalance k (sub_int b x) m h
            (rw e (difference-IsBalance b x (IsBalance-at k m h) p le)),
        rw e (
            take_total (total (insert k (b -ℤ x) m)) (total m) b x
              (sum_by-insert (λ v. v) (pos 0) k (b -ℤ x) m refl)),
      )

  abbrev pub paid : Map ℤ
  paid = insert k (add_int (at (pos 0) k m) x) m

  -- Paying in raises the total by just that, as long as the total stays an `int`.
  pub paid_lem :
      AreBalances m
      → pos 0 ≤ℤ x
      → pos_part (total m +ℤ x) < 9223372036854775808
      → AreBalances paid × (total paid ≡ total m +ℤ x)
  paid_lem h p fits =
      let b = at (pos 0) k m in
      let bound = sum_fits b x (total m) (IsBalance-at k m h) p (at-le-total k m h) fits in
      let e : add_int b x ≡ b +ℤ x = add_int_id b x (bound.1, IsBalance-neg (b +ℤ x) bound) in
      (
        Values-insert IsBalance k (add_int b x) m h (rw e bound),
        rw e (
            pay_total (total (insert k (b +ℤ x) m)) (total m) b x
              (sum_by-insert (λ v. v) (pos 0) k (b +ℤ x) m refl)),
      )
