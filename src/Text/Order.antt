-- ===== src/Text/Order.antt =====
-- Laws of the order of texts that PoolID and getLeafHash use.
use pokoinpos.Prelude.{◌≡◌, refl, true, false, [], ◌∷◌, arith}
use pokoinpos.Text.{Text, text_ltb}

pub text_ltb_irrefl : (a : Text) → text_ltb a a ≡ false
unfolding text_ltb
text_ltb_irrefl [] = refl
text_ltb_irrefl (x ∷ a) = ground (arith, text_ltb_irrefl a)

pub text_ltb_asymm : (a b : Text) → text_ltb a b ≡ true → text_ltb b a ≡ false
unfolding text_ltb
text_ltb_asymm [] [] h = refl
text_ltb_asymm [] (y ∷ b) h = refl
text_ltb_asymm (x ∷ a) [] h = cc
text_ltb_asymm (x ∷ a) (y ∷ b) h = ground (arith, text_ltb_asymm a b)

pub text_ltb_trans :
    (a b c : Text) → text_ltb a b ≡ true → text_ltb b c ≡ true → text_ltb a c ≡ true
unfolding text_ltb
text_ltb_trans [] [] c h k = cc
text_ltb_trans [] (y ∷ b) [] h k = cc
text_ltb_trans [] (y ∷ b) (z ∷ c) h k = refl
text_ltb_trans (x ∷ a) [] c h k = cc
text_ltb_trans (x ∷ a) (y ∷ b) [] h k = cc
text_ltb_trans (x ∷ a) (y ∷ b) (z ∷ c) h k = ground (arith, text_ltb_trans a b c)

-- Two texts of which neither is smaller are one text.
pub text_ltb_antisymm : (a b : Text) → text_ltb a b ≡ false → text_ltb b a ≡ false → a ≡ b
unfolding text_ltb
text_ltb_antisymm [] [] h k = refl
text_ltb_antisymm [] (y ∷ b) h k = cc
text_ltb_antisymm (x ∷ a) [] h k = cc
text_ltb_antisymm (x ∷ a) (y ∷ b) h k = ground (arith, text_ltb_antisymm a b)
