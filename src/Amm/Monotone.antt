-- ===== src/Amm/Monotone.antt =====
-- QuoteSwap on two inputs.
use native.Mathlib.Nat.{div-mul-le_self, le-div_iff_mul-le}
use pokoinpos.Prelude.{ℕ, ◌+◌, ◌*◌, ◌≤◌, ◌<◌, ◌≡◌, some, arith, ◌-◌}
use pokoinpos.Prelude.Int.{pos}
use pokoinpos.Prelude.Run.{done}
use pokoinpos.Amm.{quote_reserves}
use pokoinpos.Amm.Product.{IsSmall, curve, curve-le, mul-le, net_of, quote_reserves-curve}

curve_step : (o ri ro n e : ℕ) → o * (ri + n) ≤ ro * n → o ≤ ro → o * (ri + (n + e)) ≤ ro * (n + e)
curve_step o ri ro n e h le = let k : o * e ≤ ro * e = grind arith in omega (arith, k)

curve_mono : (ri ro n n' : ℕ) → 0 < ri → n ≤ n' → curve ri ro n ≤ curve ri ro n'
curve_mono ri ro n n' p le =
    let o = curve ri ro n in
    let e : n + (n' - n) ≡ n' = omega arith in
    (le-div_iff_mul-le (omega arith)).1 (
      rw e at
        (curve_step o ri ro n (n' - n) (div-mul-le_self (ro * n) (ri + n)) (curve-le ri ro n p)))

IsSmall-le : (f ri ro x y : ℕ) → IsSmall f ri ro y → x ≤ y → IsSmall f ri ro x
IsSmall-le f ri ro x y small le = record {
  fee_fits = small.fee_fits;
  scaled_fits = omega arith;
  product_fits = omega (arith, mul-le ro x y le);
  reserve_fits = omega arith;
  out_fits = small.out_fits;
}

net_of_mono : (f x y : ℕ) → x ≤ y → net_of f x ≤ net_of f y
net_of_mono f x y le = let le' : x * (10000 - f) ≤ y * (10000 - f) = grind arith in omega arith

-- On the same reserves, a larger input is quoted at least as much.
pub quote_reserves_mono :
    (f ri ro x y o o' : ℕ)
    → IsSmall f ri ro y
    → 0 < ri
    → x ≤ y
    → quote_reserves (pos f) (pos ri) (pos ro) (pos x) ≡ done (some (pos o))
    → quote_reserves (pos f) (pos ri) (pos ro) (pos y) ≡ done (some (pos o'))
    → o ≤ o'
quote_reserves_mono f ri ro x y o o' small p le ex ey =
    let small_x = IsSmall-le f ri ro x y small le in
    ground (
      arith,
      quote_reserves-curve f ri ro x small_x p,
      quote_reserves-curve f ri ro y small p,
      curve_mono ri ro (net_of f x) (net_of f y) p (net_of_mono f x y le),
    )
