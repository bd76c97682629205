-- ===== src/Text/Decimal.antt =====
-- strconv.Itoa.
use pokoinpos.Prelude.{ℕ, zero, suc, ◌+◌, ◌/◌, ◌%◌, [], ◌∷◌, ltb, if◌then◌else◌}
use pokoinpos.Prelude.Int.{ℤ, pos, negsuc}
use pokoinpos.Text.{Text}

-- The decimal digits of a number, on fuel above their number.
unfoldable pub digits_from : ℕ → ℕ → Text → Text
digits_from zero n acc = acc
digits_from (suc f) n acc =
    let more = digits_from f (n / 10) ((48 + n % 10) ∷ acc) in
    if ltb n 10 then (48 + n) ∷ acc else more

-- An `int` has at most 19 digits.
unfoldable pub itoa : ℤ → Text
unfolding digits_from
itoa (pos n) = digits_from 20 n []
itoa (negsuc n) = 45 ∷ digits_from 20 (suc n) []
