-- ===== src/Amm/Product.antt =====
-- QuoteSwap against the rational curve x * y = k, in whole numbers.
use native.Mathlib.Nat.{div-le_of_le-mul, div-mul-le_self}
use pokoinpos.Prelude.{
  ℕ, ◌+◌, ◌-◌, ◌*◌, ◌/◌, ◌≤◌, ◌<◌, ◌≡◌, ◌||◌, none, some, arith, if◌then◌else◌, leb, ◌==◌,
}
use pokoinpos.Prelude.Int.{pos, add_int-pos, sub_int-pos, mul_int-pos, div_int-pos}
use pokoinpos.Prelude.Run.{done}
use pokoinpos.Amm.{quote_reserves}

-- What is left of the input after a fee of `f` hundredths of a percent.
abbrev pub net_of : ℕ → ℕ → ℕ
net_of f x = (x * (10000 - f)) / 10000

-- The output on the curve, rounded down.
abbrev pub curve : ℕ → ℕ → ℕ → ℕ
curve reserve_in reserve_out net = (reserve_out * net) / (reserve_in + net)

-- The amounts for which no intermediate result leaves the range of `int`.
pub record IsSmall (f reserve_in reserve_out x : ℕ) : Type 0 where
  pub fee_fits : f ≤ 10000
  pub scaled_fits : x * 10000 < 9223372036854775808
  pub product_fits : reserve_out * x < 9223372036854775808
  pub reserve_fits : reserve_in + x < 9223372036854775808
  pub out_fits : reserve_out < 9223372036854775808

pub mul-le : (x a b : ℕ) → a ≤ b → x * a ≤ x * b
mul-le x a b h = grind arith

pub net_of-le : (f x : ℕ) → net_of f x ≤ x
net_of-le f x = div-le_of_le-mul 10000 (omega (arith, mul-le x (10000 - f) 10000 (omega arith)))

scaled-le : (f x : ℕ) → x * (10000 - f) ≤ x * 10000
scaled-le f x = mul-le x (10000 - f) 10000 (omega arith)

-- The quote in numbers.
pub quote_reserves-curve :
    (f ri ro x : ℕ)
    → IsSmall f ri ro x
    → 0 < ri
    → quote_reserves (pos f) (pos ri) (pos ro) (pos x) ≡ (
        if net_of f x == 0
        then done none
        else if (curve ri ro (net_of f x) == 0) || leb ro (curve ri ro (net_of f x))
        then done none
        else done (some (pos (curve ri ro (net_of f x)))))
unfolding quote_reserves
quote_reserves-curve f ri ro x small p =
    let net = net_of f x in
    let le = net_of-le f x in
    rw
      (
        sub_int-pos 10000 f small.fee_fits (omega arith),
        mul_int-pos x (10000 - f) (omega (arith, scaled-le f x)),
        div_int-pos (x * (10000 - f)) 10000 (omega arith),
        mul_int-pos ro net (omega (arith, mul-le ro net x le)),
        add_int-pos ri net (omega arith),
        div_int-pos (ro * net) (ri + net) (omega arith),
      )
      (ground arith)

-- The step in whole numbers, for reserves `d + o` and an output `o`.
product_step :
    (ri d o net x : ℕ) → o * (ri + net) ≤ (d + o) * net → net ≤ x → ri * (d + o) ≤ (ri + x) * d
product_step ri d o net x h le = let mono : d * net ≤ d * x = grind arith in omega (arith, mono)

pub curve-le : (ri ro net : ℕ) → 0 < ri → curve ri ro net ≤ ro
curve-le ri ro net p = div-le_of_le-mul (ri + net) (grind arith)

-- Rounding down keeps the new point on or above the curve.
pub product_le : (ri ro net x : ℕ) → net ≤ x → 0 < ri → ri * ro ≤ (ri + x) * (ro - curve ri ro net)
product_le ri ro net x le p =
    let o = curve ri ro net in
    let split : (ro - o) + o ≡ ro = omega (arith, curve-le ri ro net p) in
    rw split at
      (product_step ri (ro - o) o net x (rw split (div-mul-le_self (ro * net) (ri + net))) le)
