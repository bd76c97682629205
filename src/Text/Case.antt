-- ===== src/Text/Case.antt =====
-- Laws of changing the case, trimming and replacing.
use pokoinpos.Prelude.{ℕ, ◌≡◌, refl, [], ◌∷◌, map, arith}
use pokoinpos.Text.{Text, upper_byte, lower_byte, to_upper, to_lower}

upper_byte_idem : (c : ℕ) → upper_byte (upper_byte c) ≡ upper_byte c
unfolding upper_byte
upper_byte_idem c = ground arith

lower_byte_idem : (c : ℕ) → lower_byte (lower_byte c) ≡ lower_byte c
unfolding lower_byte
lower_byte_idem c = ground arith

map_idem : (f : ℕ → ℕ) → ((c : ℕ) → f (f c) ≡ f c) → (s : Text) → map f (map f s) ≡ map f s
map_idem f h [] = refl
map_idem f h (c ∷ s) = cc (h c, map_idem f h s)

pub to_upper_idem : (s : Text) → to_upper (to_upper s) ≡ to_upper s
unfolding to_upper
to_upper_idem s = map_idem upper_byte upper_byte_idem s

pub to_lower_idem : (s : Text) → to_lower (to_lower s) ≡ to_lower s
unfolding to_lower
to_lower_idem s = map_idem lower_byte lower_byte_idem s
