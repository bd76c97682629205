-- ===== src/Amm/Swap.antt =====
-- A swap as a whole: the quote and the move of the reserves.
use pokoinpos.Prelude.{ℕ, ◌+◌, ◌-◌, ◌*◌, ◌≤◌, ◌<◌, ◌≡◌, refl, false, some, arith}
use pokoinpos.Prelude.Int.{ℤ, pos, add_int-pos, sub_int-pos, leb_ℤ}
use pokoinpos.Prelude.Run.{done}
use pokoinpos.Text.{Text}
use pokoinpos.Tx.{AmmPool}
use pokoinpos.Assets.{normalize_asset}
use pokoinpos.Amm.{quote_swap, quote_reserves, apply_swap, reserves_for, fee_of}
use pokoinpos.Amm.Product.{IsSmall, curve, net_of, net_of-le, product_le, quote_reserves-curve}
use pokoinpos.Amm.Quote.{quote_swap_solvent, quote_swap_reserves, reserves_for_idem}

quoted :
    (f ri ro x : ℕ) (out : ℤ)
    → IsSmall f ri ro x
    → leb_ℤ (pos ri) (pos 0) ≡ false
    → quote_reserves (pos f) (pos ri) (pos ro) (pos x) ≡ done (some out)
    → out ≡ pos (curve ri ro (net_of f x))
quoted f ri ro x out small p e = ground (arith, quote_reserves-curve f ri ro x small)

moved :
    (pool : AmmPool) (name : Text) (ri ro x o : ℕ)
    → reserves_for pool (normalize_asset name) ≡ (pos ri, pos ro)
    → 0 < ri
    → o < ro
    → ri + x < 9223372036854775808
    → ro < 9223372036854775808
    → reserves_for (apply_swap pool name (pos x) (pos o)).1 name ≡ (pos (ri + x), pos (ro - o))
moved pool name ri ro x o er p lt fx fo =
    let split = reserves_for_idem pool name in
    unfold apply_swap reserves_for in ground (arith, add_int-pos ri x fx, sub_int-pos ro o)

-- While nothing overflows, a quoted swap pays what the curve gives, the reserves move by the two
-- amounts, and their product does not fall.
pub swap_keeps_product :
    (pool : AmmPool) (name : Text) (f ri ro x : ℕ) {out : ℤ}
    → reserves_for pool (normalize_asset name) ≡ (pos ri, pos ro)
    → fee_of pool ≡ pos f
    → IsSmall f ri ro x
    → quote_swap pool name (pos x) ≡ done (some out)
    → (o : ℕ) × (out ≡ pos o)
      × (o ≡ curve ri ro (net_of f x))
      × (reserves_for (apply_swap pool name (pos x) out).1 name ≡ (pos (ri + x), pos (ro - o)))
      × (ri * ro ≤ (ri + x) * (ro - o))
swap_keeps_product pool name f ri ro x {out} er ef small e =
    let o = curve ri ro (net_of f x) in
    let before = quote_swap_reserves pool name (pos x) e in
    let p : leb_ℤ (pos ri) (pos 0) ≡ false = rw er at before.0 in
    let q : quote_reserves (pos f) (pos ri) (pos ro) (pos x) ≡ done (some out) =
      rw (er, ef) at before.1 in
    let paid = quoted f ri ro x out small p q in
    let short : leb_ℤ (pos ro) out ≡ false = rw er at (quote_swap_solvent pool name (pos x) e).1 in
    let lt : o < ro = ground arith in
    (
      o,
      paid,
      refl,
      rw paid (moved pool name ri ro x o er (ground arith) lt small.reserve_fits small.out_fits),
      product_le ri ro (net_of f x) x (net_of-le f x) (ground arith),
    )
