-- ===== src/GoMap/Sum.antt =====
-- Sums over the values of a map, as integers without bound: what balances add up to.
use pokoinpos.Prelude.{◌≡◌, [], ◌∷◌, arith}
use pokoinpos.Prelude.Int.{ℤ, pos, ◌+ℤ◌, ◌≤ℤ◌, int_laws}
use pokoinpos.Text.{Text}
use pokoinpos.GoMap.{Map, lookup, insert, at}
use pokoinpos.GoMap.Keys.{Values}

module _ {ℓ} {V : Type ℓ} (f : V → ℤ) where
  -- The sum of `f` over the values.
  unfoldable pub sum_by : Map V → ℤ
  sum_by [] = pos 0
  sum_by ((k, v) ∷ m) = f v +ℤ sum_by m

  -- A write moves the sum by the new value less the old one; an absent key had `f d`, if that is 0.
  pub sum_by-insert :
      (d : V) (k : Text) (v : V) (m : Map V)
      → f d ≡ pos 0
      → sum_by (insert k v m) +ℤ f (at d k m) ≡ sum_by m +ℤ f v
  unfolding sum_by insert lookup
  sum_by-insert d k v [] z = rw z (omega int_laws)
  sum_by-insert d k v ((j, w) ∷ m) z = grind (int_laws, sum_by-insert d k v m z)

  -- Where no value is negative, each one read is at most the sum.
  pub sum_by_nonneg : (m : Map V) → Values (λ v. pos 0 ≤ℤ f v) m → pos 0 ≤ℤ sum_by m
  unfolding sum_by
  sum_by_nonneg [] h = omega arith
  sum_by_nonneg ((j, w) ∷ m) h = omega (int_laws, sum_by_nonneg m h.1)

  pub at-le-sum_by :
      (d : V) (k : Text) (m : Map V)
      → f d ≡ pos 0
      → Values (λ v. pos 0 ≤ℤ f v) m
      → (pos 0 ≤ℤ f (at d k m)) × (f (at d k m) ≤ℤ sum_by m)
  unfolding sum_by lookup
  at-le-sum_by d k [] z h = rw z (omega arith, omega arith)
  at-le-sum_by d k ((j, w) ∷ m) z h =
      grind (int_laws, at-le-sum_by d k m z h.1, sum_by_nonneg m h.1)

-- The same for balances: the value is the amount.
abbrev pub total : Map ℤ → ℤ
total = sum_by (λ v. v)
