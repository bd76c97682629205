-- ===== src/Tests/Pools.antt =====
-- Quotes and swaps in a pool of two assets.
use pokoinpos.Prelude.{ℕ, ◌≡◌, ◌≢◌, refl, some, ◌≤◌, ◌*◌, ◌+◌, ◌-◌, arith}
use pokoinpos.Prelude.Int.{
  pos, add_int, sub_int, mul_int, div_int, quotient, wrap, ◌+ℤ◌, ◌-ℤ◌, ◌*ℤ◌,
}
use pokoinpos.Prelude.Run.{done, panic}
use pokoinpos.Text.{txt, text_eq, trim_space, to_upper}
use pokoinpos.Tx.{AmmPool}
use pokoinpos.Assets.{normalize_asset}
use pokoinpos.Amm.{reserves_for, quote_reserves, quote_swap, apply_swap}
use pokoinpos.Amm.Quote.{IsPool, quote_swap-ne-panic}
use pokoinpos.Amm.Product.{IsSmall, net_of, curve}
use pokoinpos.Amm.Swap.{swap_keeps_product}

abbrev pub gold_and_salt : AmmPool
gold_and_salt = record {
  id = txt "GOLD_SALT";
  asset_a = txt "GOLD";
  asset_b = txt "SALT";
  reserve_a = pos 1000;
  reserve_b = pos 4000;
  fee_bps = pos 30;
  created_tx = txt "t1";
  last_tx = txt "t1";
}

quoted : quote_swap gold_and_salt (txt " gold") (pos 100) ≡ done (some (pos 360))
unfolding quote_swap quote_reserves reserves_for normalize_asset text_eq trim_space to_upper add_int
    sub_int mul_int div_int quotient wrap ◌+ℤ◌ ◌-ℤ◌ ◌*ℤ◌
quoted = refl

more_quoted : quote_reserves (pos 30) (pos 1000) (pos 4000) (pos 200) ≡ done (some (pos 663))
unfolding quote_reserves add_int sub_int mul_int div_int quotient wrap ◌+ℤ◌ ◌-ℤ◌ ◌*ℤ◌
more_quoted = refl

less_quoted : quote_reserves (pos 30) (pos 1000) (pos 4000) (pos 100) ≡ done (some (pos 360))
unfolding quote_reserves add_int sub_int mul_int div_int quotient wrap ◌+ℤ◌ ◌-ℤ◌ ◌*ℤ◌
less_quoted = refl

gold_reserves : reserves_for gold_and_salt (normalize_asset (txt " gold")) ≡ (pos 1000, pos 4000)
unfolding reserves_for normalize_asset text_eq trim_space to_upper
gold_reserves = refl

hundred-IsSmall : IsSmall 30 1000 4000 100
hundred-IsSmall = ground arith

two_hundred-IsSmall : IsSmall 30 1000 4000 200
two_hundred-IsSmall = ground arith

gold_and_salt-IsPool : IsPool gold_and_salt
gold_and_salt-IsPool = ground arith

quote_swap-ne-panic_example : quote_swap gold_and_salt (txt " gold") (pos 100) ≢ panic
quote_swap-ne-panic_example =
    quote_swap-ne-panic gold_and_salt (txt " gold") (pos 100) gold_and_salt-IsPool

swap_keeps_product_example :
    (o : ℕ) × (pos 360 ≡ pos o)
    × (o ≡ curve 1000 4000 (net_of 30 100))
    × (reserves_for (apply_swap gold_and_salt (txt " gold") (pos 100) (pos 360)).1 (txt " gold")
        ≡ (pos (1000 + 100), pos (4000 - o)))
    × (1000 * 4000 ≤ (1000 + 100) * (4000 - o))
swap_keeps_product_example =
    swap_keeps_product gold_and_salt (txt " gold") 30 1000 4000 100 gold_reserves refl
      hundred-IsSmall quoted
