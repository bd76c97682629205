-- ===== src/Amm.antt =====
-- peer/account/transaction.go: the constant-product pool. `quote_swap` prices a swap and
-- `apply_swap` moves the reserves. The arithmetic is that of Go's `int`: it wraps around.
pub mod Quote
pub mod Product
pub mod Monotone
pub mod Swap
use pokoinpos.Prelude.{Bool, true, false, ◌||◌, Option, none, some, if◌then◌else◌}
use pokoinpos.Prelude.Int.{ℤ, pos, add_int, sub_int, mul_int, div_int, leb_ℤ}
use pokoinpos.Prelude.Run.{Run, done, ◌>>=◌}
use pokoinpos.Text.{Text, text_eq}
use pokoinpos.Tx.{AmmPool}
use pokoinpos.Assets.{normalize_asset}

abbrev pub amm_fee_bps : ℤ
amm_fee_bps = pos 30

abbrev pub amm_denominator_bps : ℤ
amm_denominator_bps = pos 10000

unfoldable pub reserves_for : AmmPool → Text → ℤ × ℤ
reserves_for pool name =
    let asset = normalize_asset name in
    if text_eq asset pool.asset_a
    then (pool.reserve_a, pool.reserve_b)
    else if text_eq asset pool.asset_b
    then (pool.reserve_b, pool.reserve_a)
    else (pos 0, pos 0)

-- `if feeBps <= 0 { feeBps = AMMFeeBps }`
abbrev pub fee_of : AmmPool → ℤ
fee_of pool = if leb_ℤ pool.fee_bps (pos 0) then amm_fee_bps else pool.fee_bps

-- The second half of QuoteSwap, from `amountInAfterFee` on.
unfoldable pub quote_reserves : ℤ → ℤ → ℤ → ℤ → Run (Option ℤ)
quote_reserves fee reserve_in reserve_out amount_in = do
  after_fee ← div_int (mul_int amount_in (sub_int amm_denominator_bps fee)) amm_denominator_bps
  if leb_ℤ after_fee (pos 0) then done none else do
    out ← div_int (mul_int reserve_out after_fee) (add_int reserve_in after_fee)
    done (if leb_ℤ out (pos 0) || leb_ℤ reserve_out out then none else some out)

-- QuoteSwap; `none` is the result (0, false).
unfoldable pub quote_swap : AmmPool → Text → ℤ → Run (Option ℤ)
quote_swap pool name amount_in =
    let asset = normalize_asset name in
    let reserves = reserves_for pool asset in
    if leb_ℤ amount_in (pos 0) || leb_ℤ pool.reserve_a (pos 0) || leb_ℤ pool.reserve_b (pos 0)
    then done none
    else if leb_ℤ reserves.0 (pos 0) || leb_ℤ reserves.1 (pos 0)
    then done none
    else quote_reserves (fee_of pool) reserves.0 reserves.1 amount_in

-- applySwap; the pool is changed in place.
unfoldable pub apply_swap : AmmPool → Text → ℤ → ℤ → Bool × AmmPool
apply_swap pool name amount_in amount_out =
    let asset = normalize_asset name in
    if text_eq asset pool.asset_a
    then if leb_ℤ pool.reserve_b amount_out then (false, pool) else (
      true,
      record pool {
        reserve_a = add_int pool.reserve_a amount_in;
        reserve_b = sub_int pool.reserve_b amount_out;
      },
    )
    else if text_eq asset pool.asset_b
    then if leb_ℤ pool.reserve_a amount_out then (false, pool) else (
      true,
      record pool {
        reserve_b = add_int pool.reserve_b amount_in;
        reserve_a = sub_int pool.reserve_a amount_out;
      },
    )
    else (false, pool)
