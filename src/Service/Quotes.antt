-- ===== src/Service/Quotes.antt =====
-- The quotes that swapQuote answers.
use pokoinpos.Prelude.{
  Bool, true, false, ◌&&◌, ◌||◌, Option, none, some, ◌≡◌, refl, ap, subst, arith, if◌then◌else◌,
  sym, ◌∙◌,
}
use pokoinpos.Prelude.Int.{ℤ, pos, leb_ℤ, ltb_ℤ}
use pokoinpos.Prelude.Run.{Run, done, ◌>>=◌, >>=-eq-done}
use pokoinpos.Text.{Text, txt, text_eq, is_empty, to_upper, text_eq_iff}
use pokoinpos.Tx.{AmmPool}
use pokoinpos.Assets.{normalize_asset}
use pokoinpos.Amm.{reserves_for, quote_swap}
use pokoinpos.Amm.Quote.{quote_swap_solvent, quote_swap_reserves, reserves_for_idem}
use pokoinpos.Service.{Response, json, any_amm_quote, AmmQuote, failure}
use pokoinpos.Service.Guarded.{false_unless}
use pokoinpos.Service.Holdings.{quote_of, quote_on}

both_of : (b c : Bool) → (b && c) ≡ true → (b ≡ true) × (c ≡ true)
both_of b c e = ground arith

abbrev choose : Bool → Bool → ℤ → ℤ → ℤ × ℤ
choose a b x y = if a then (x, y) else if b then (y, x) else (pos 0, pos 0)

-- The two ways to choose, by the first asset or by the second one.
sides_agree :
    (a b : Bool) (x y : ℤ)
    → (a && b) ≡ false
    → leb_ℤ (choose a b x y).0 (pos 0) ≡ false
    → ◌≡◌ {A = ℤ × ℤ} (if b then y else x, if b then x else y) (choose a b x y)
sides_agree true true x y e p = cc
sides_agree true false x y e p = refl
sides_agree false true x y e p = refl
sides_agree false false x y e p = ground arith

-- An answer with a quote tells what was quoted.
answered :
    (pool : AmmPool) (given : Text) (amount_in : ℤ) (q : AmmQuote) (quoted : Option ℤ)
    → ◌≡◌ {A = Run Response}
        (done (elim quoted [
          | none ↦ failure 400 (txt "quote_unavailable")
          | some out ↦ json 200 (any_amm_quote (quote_of pool given amount_in out))
        ]))
        (done (json 200 (any_amm_quote q)))
    → (out : ℤ) × (quoted ≡ some out) × (q ≡ quote_of pool given amount_in out)
answered pool given x q none e = cc
answered pool given x q (some out) e = (out, refl, cc)

-- A quote that is answered is that of QuoteSwap.
quote_on-eq :
    (pool : AmmPool) (given : Text) (amount_in : ℤ) (q : AmmQuote)
    → quote_on (some pool) given amount_in ≡ done (json 200 (any_amm_quote q))
    → (out : ℤ) × (quote_swap pool given amount_in ≡ done (some out))
      × (q ≡ quote_of pool given amount_in out)
unfolding quote_on
quote_on-eq pool given x q e =
    elim (ltb_ℤ x (pos 1) || is_empty given)
        as (λ b.
          (elim b as (λ _. Run Response) [
            | true ↦ done (failure 400 (txt "invalid_quote_request"))
            | false ↦ do
              quoted ← quote_swap pool given x
              done (elim quoted [
                | none ↦ failure 400 (txt "quote_unavailable")
                | some amount_out ↦ json 200 (any_amm_quote (quote_of pool given x amount_out))
              ])
          ])
            ≡ done (json 200 (any_amm_quote q))
          → (out : ℤ) × (quote_swap pool given x ≡ done (some out))
            × (q ≡ quote_of pool given x out)) [
              | true ↦ λ e. cc
              | false ↦ λ e.
                  let (quoted, found, e') = >>=-eq-done (quote_swap pool given x) _ e in
                  let (out, same, q_is) = answered pool given x q quoted e' in (out, cc, q_is)
            ]
      e

-- The reserves of a pool on the sides of a swap from an asset.
abbrev sides : AmmPool → Text → ℤ × ℤ
sides pool asset =
    choose (text_eq asset pool.asset_a) (text_eq asset pool.asset_b) pool.reserve_a pool.reserve_b

not_both : (a x y : Text) → ¬ (x ≡ y) → (text_eq a x && text_eq a y) ≡ false
not_both a x y h = false_unless _ (λ e.
    let (first, second) = both_of (text_eq a x) (text_eq a y) e in
    h (sym ((text_eq_iff a x).0 first) ∙ (text_eq_iff a y).0 second))

-- The handler takes the reserves on the same sides, where the asset is one of the pool.
quote_of-sides :
    (pool : AmmPool) (given : Text) (amount_in out : ℤ)
    → ¬ (pool.asset_a ≡ pool.asset_b)
    → leb_ℤ (sides pool (to_upper given)).0 (pos 0) ≡ false
    → let q = quote_of pool given amount_in out in
      (q.reserve_in, q.reserve_out) ≡ sides pool (to_upper given)
unfolding quote_of
quote_of-sides pool given x out h p =
    let apart = not_both (to_upper given) pool.asset_a pool.asset_b h in
    sides_agree (text_eq (to_upper given) pool.asset_a) (text_eq (to_upper given) pool.asset_b)
      pool.reserve_a pool.reserve_b apart p

reserves_for-sides :
    (pool : AmmPool) (given : Text)
    → normalize_asset given ≡ to_upper given
    → reserves_for pool (normalize_asset given) ≡ sides pool (to_upper given)
reserves_for-sides pool given e = reserves_for_idem pool given ∙ ap (sides pool) e

reserves_for-given :
    (pool : AmmPool) (given : Text)
    → reserves_for pool (normalize_asset given) ≡ reserves_for pool given
unfolding reserves_for
reserves_for-given pool given = reserves_for_idem pool given

-- What the two halves of the handler say of a quote.
abbrev IsQuoteOf : AmmPool → Text → ℤ → AmmQuote → Type 0
IsQuoteOf pool given amount_in q =
    (quote_swap pool given amount_in ≡ done (some q.amount_out))
    × ((q.reserve_in, q.reserve_out) ≡ reserves_for pool given)
    × (leb_ℤ q.amount_out (pos 0) ≡ false)
    × (leb_ℤ q.reserve_out q.amount_out ≡ false)

quote_of-IsQuoteOf :
    (pool : AmmPool) (given : Text) (amount_in out : ℤ)
    → ¬ (pool.asset_a ≡ pool.asset_b)
    → normalize_asset given ≡ to_upper given
    → quote_swap pool given amount_in ≡ done (some out)
    → IsQuoteOf pool given amount_in (quote_of pool given amount_in out)
quote_of-IsQuoteOf pool given x out h e quoted =
    let q = quote_of pool given x out in
    let same = reserves_for-sides pool given e in
    let (positive, _) = quote_swap_reserves pool given x quoted in
    let (paid, below) = quote_swap_solvent pool given x quoted in
    let agree =
      quote_of-sides pool given x out h (subst (λ r. leb_ℤ r.0 (pos 0) ≡ false) same positive)
      ∙ sym same in
    unfold quote_of in
    (
      quoted,
      agree ∙ reserves_for-given pool given,
      paid,
      subst (λ r. leb_ℤ r.1 out ≡ false) (sym agree) below,
    )

-- An answered quote, for an asset that needs no other change than to capitals and on a pool of two
-- assets, is the one that QuoteSwap computes; the reserves that it names are those that QuoteSwap reads,
-- and its amount is positive and less than the reserve it is paid from.
pub quote_on-reserves :
    (pool : AmmPool) (given : Text) (amount_in : ℤ) (q : AmmQuote)
    → ¬ (pool.asset_a ≡ pool.asset_b)
    → normalize_asset given ≡ to_upper given
    → quote_on (some pool) given amount_in ≡ done (json 200 (any_amm_quote q))
    → (quote_swap pool given amount_in ≡ done (some q.amount_out))
      × ((q.reserve_in, q.reserve_out) ≡ reserves_for pool given)
      × (leb_ℤ q.amount_out (pos 0) ≡ false)
      × (leb_ℤ q.reserve_out q.amount_out ≡ false)
quote_on-reserves pool given x q h e answer =
    let (out, quoted, q_is) = quote_on-eq pool given x q answer in
    subst (IsQuoteOf pool given x) (sym q_is) (quote_of-IsQuoteOf pool given x out h e quoted)
