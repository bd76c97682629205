-- ===== src/Amm/Quote.antt =====
-- QuoteSwap and applySwap together: panics, solvency of the pool, and the swap that was priced.
use pokoinpos.Prelude.{◌/◌, suc, ◌≡◌, ◌≢◌, refl, true, false, some, arith, if◌then◌else◌}
use pokoinpos.Prelude.Int.{
  ℤ, pos, negsuc, add_int, sub_int, mul_int, div_int, leb_ℤ, InInt, wrap-InInt, ◌*ℤ◌, sub_ℕ, eqb_ℤ,
}
use pokoinpos.Prelude.Run.{done, panic}
use pokoinpos.Text.{Text, text_eq}
use pokoinpos.Tx.{AmmPool}
use pokoinpos.Assets.{normalize_asset}
use pokoinpos.Assets.PoolNames.{normalize_asset_idem}
use pokoinpos.Amm.{
  fee_of, quote_swap, quote_reserves, apply_swap, reserves_for, amm_denominator_bps,
}

-- The sum of two positive `int`s is never zero, also where it wraps.
add_int-ne-zero :
    (a b : ℤ)
    → InInt a
    → InInt b
    → leb_ℤ a (pos 0) ≡ false
    → leb_ℤ b (pos 0) ≡ false
    → eqb_ℤ (add_int a b) (pos 0) ≡ false
unfolding add_int
add_int-ne-zero (pos a) (pos b) ha hb pa pb = ground arith
add_int-ne-zero (pos a) (negsuc b) ha hb pa pb = ground arith
add_int-ne-zero (negsuc a) b ha hb pa pb = ground arith

-- The part of the input that is left after the fee is an `int` again.
div_int-InInt : (a : ℤ) → InInt a → (q : ℤ) × (div_int a (pos 10000) ≡ done q) × InInt q
unfolding div_int
div_int-InInt (pos a) h = (pos (a / 10000), refl, omega arith)
div_int-InInt (negsuc a) h = (sub_ℕ 0 (suc a / 10000), refl, ground arith)

div_int_nonzero : (a b : ℤ) → eqb_ℤ b (pos 0) ≡ false → div_int a b ≢ panic
unfolding div_int
div_int_nonzero a b h = ground arith

mul_int-InInt : (a b : ℤ) → InInt (mul_int a b)
unfolding mul_int
mul_int-InInt a b = wrap-InInt (a *ℤ b)

pub quote_reserves-ne-panic :
    (fee reserve_in reserve_out amount_in : ℤ)
    → InInt reserve_in
    → leb_ℤ reserve_in (pos 0) ≡ false
    → quote_reserves fee reserve_in reserve_out amount_in ≢ panic
unfolding quote_reserves
quote_reserves-ne-panic fee ri ro x h p =
    let m = mul_int x (sub_int amm_denominator_bps fee) in
    let (q, e, hq) = div_int-InInt m (mul_int-InInt x (sub_int amm_denominator_bps fee)) in
    rw e
      (ground (arith, add_int-ne-zero ri q h hq p, div_int_nonzero (mul_int ro q) (add_int ri q)))

-- A pool as Go can hold it.
pub record IsPool (pool : AmmPool) : Type 0 where
  pub a_fits : InInt pool.reserve_a
  pub b_fits : InInt pool.reserve_b

reserves_for_fits : (pool : AmmPool) (name : Text) → IsPool pool → InInt (reserves_for pool name).0
unfolding reserves_for
reserves_for_fits pool name h = ground arith

-- QuoteSwap returns on every input: no overflow makes its divisor zero.
pub quote_swap-ne-panic :
    (pool : AmmPool) (name : Text) (amount_in : ℤ)
    → IsPool pool
    → quote_swap pool name amount_in ≢ panic
unfolding quote_swap
quote_swap-ne-panic pool name x h =
    let asset = normalize_asset name in
    let (reserve_in, reserve_out) = reserves_for pool asset in
    ground (
      arith,
      quote_reserves-ne-panic (fee_of pool) reserve_in reserve_out x
          (reserves_for_fits pool asset h),
    )

-- A quote is more than nothing and less than the reserve that it is paid from.
quote_reserves_solvent :
    (fee reserve_in reserve_out amount_in : ℤ) {out : ℤ}
    → quote_reserves fee reserve_in reserve_out amount_in ≡ done (some out)
    → (leb_ℤ out (pos 0) ≡ false) × (leb_ℤ reserve_out out ≡ false)
unfolding quote_reserves
quote_reserves_solvent fee ri ro x e = ground arith

-- A quote was computed from positive reserves.
pub quote_swap_reserves :
    (pool : AmmPool) (name : Text) (amount_in : ℤ) {out : ℤ}
    → quote_swap pool name amount_in ≡ done (some out)
    → let (reserve_in, reserve_out) = reserves_for pool (normalize_asset name) in
      (leb_ℤ reserve_in (pos 0) ≡ false)
      × (quote_reserves (fee_of pool) reserve_in reserve_out amount_in ≡ done (some out))
unfolding quote_swap
quote_swap_reserves pool name x {out} e = ground arith

-- Every quote is positive and below the reserve of the asset that it pays out, whatever overflows.
pub quote_swap_solvent :
    (pool : AmmPool) (name : Text) (amount_in : ℤ) {out : ℤ}
    → quote_swap pool name amount_in ≡ done (some out)
    → (leb_ℤ out (pos 0) ≡ false) × (leb_ℤ (reserves_for pool (normalize_asset name)).1 out ≡ false)
unfolding quote_swap
quote_swap_solvent pool name x {out} e =
    let (reserve_in, reserve_out) = reserves_for pool (normalize_asset name) in
    ground (arith, quote_reserves_solvent (fee_of pool) reserve_in reserve_out x {out = out})

pub reserves_for_idem :
    (pool : AmmPool) (name : Text)
    → reserves_for pool (normalize_asset name) ≡ (
        if text_eq (normalize_asset name) pool.asset_a
        then (pool.reserve_a, pool.reserve_b)
        else if text_eq (normalize_asset name) pool.asset_b
        then (pool.reserve_b, pool.reserve_a)
        else (pos 0, pos 0))
unfolding reserves_for
reserves_for_idem pool name = rw (normalize_asset_idem name)

-- The swap that was quoted goes through: after the debit of the input nothing can be refused.
pub apply_swap-quote_swap :
    (pool : AmmPool) (name : Text) (amount_in : ℤ) {out : ℤ}
    → quote_swap pool name amount_in ≡ done (some out)
    → (apply_swap pool name amount_in out).0 ≡ true
unfolding apply_swap
apply_swap-quote_swap pool name x {out} e =
    let asset = normalize_asset name in
    let solvent = quote_swap_solvent pool name x e in ground (arith, reserves_for_idem pool name)
