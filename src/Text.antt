-- ===== src/Text.antt =====
-- Go strings as byte sequences, and the functions of the packages strings and strconv that the
-- program calls. Case mapping and white space are those of ASCII; Go also maps letters beyond
-- ASCII, which occur in none of the program's own identifiers.
pub mod Order
pub mod Case
pub mod Decimal
pub mod Trim
pub mod Hex
use Prim.Native.Char.{code}
use pokoinpos.Prelude.{
  ℕ, suc, ◌+◌, ◌-◌, ◌≡◌, ◌↔◌, refl, String, Bool, true, false, ◌&&◌, ◌||◌, List, [], ◌∷◌, ◌++◌,
  reverse, map, leb, ltb, ◌==◌, if◌then◌else◌, length, arith, drop,
}

abbrev pub Text : Type 0
Text = List ℕ

-- The bytes of an ASCII literal.
abbrev pub txt : String → Text
txt String.[] = []
txt (String.◌∷◌ c s) = code c ∷ txt s

-- `a == b` on strings.
unfoldable pub text_eq : Text → Text → Bool
text_eq [] [] = true
text_eq [] (y ∷ ys) = false
text_eq (x ∷ xs) [] = false
text_eq (x ∷ xs) (y ∷ ys) = (x == y) && text_eq xs ys

-- `s == ""`.
abbrev pub is_empty : Text → Bool
is_empty [] = true
is_empty (x ∷ xs) = false

-- `a < b` on strings: the order of the bytes, left to right.
unfoldable pub text_ltb : Text → Text → Bool
text_ltb [] [] = false
text_ltb [] (y ∷ ys) = true
text_ltb (x ∷ xs) [] = false
text_ltb (x ∷ xs) (y ∷ ys) = if ltb x y then true else (x == y) && text_ltb xs ys

is_space : ℕ → Bool
is_space c = (c == 32) || (leb 9 c && leb c 13)

trim_left : Text → Text
trim_left [] = []
trim_left (c ∷ s) = if is_space c then trim_left s else c ∷ s

-- strings.TrimSpace
unfoldable pub trim_space : Text → Text
unfolding is_space trim_left
trim_space s = reverse (trim_left (reverse (trim_left s)))

upper_byte : ℕ → ℕ
upper_byte c = if leb 97 c && leb c 122 then c - 32 else c

lower_byte : ℕ → ℕ
lower_byte c = if leb 65 c && leb c 90 then c + 32 else c

-- strings.ToUpper
unfoldable pub to_upper : Text → Text
unfolding upper_byte
to_upper s = map upper_byte s

-- strings.ToLower
unfoldable pub to_lower : Text → Text
unfolding lower_byte
to_lower s = map lower_byte s

-- strings.EqualFold
unfoldable pub equal_fold : Text → Text → Bool
unfolding to_lower text_eq
equal_fold a b = text_eq (to_lower a) (to_lower b)

-- strings.HasPrefix
unfoldable pub has_prefix : Text → Text → Bool
has_prefix s [] = true
has_prefix [] (p ∷ ps) = false
has_prefix (c ∷ s) (p ∷ ps) = (c == p) && has_prefix s ps

-- strings.TrimPrefix
unfoldable pub trim_prefix : Text → Text → Text
unfolding has_prefix
trim_prefix s p = if has_prefix s p then drop (length p) s else s

-- strings.HasSuffix and strings.TrimSuffix
unfoldable pub has_suffix : Text → Text → Bool
unfolding has_prefix
has_suffix s p = has_prefix (reverse s) (reverse p)

unfoldable pub trim_suffix : Text → Text → Text
unfolding trim_prefix
trim_suffix s p = reverse (trim_prefix (reverse s) (reverse p))

-- strings.ReplaceAll where both texts are one byte.
unfoldable pub replace_byte : Text → ℕ → ℕ → Text
replace_byte s old new = map (λ c. if c == old then new else c) s

split_from : Text → Text → ℕ → List Text
split_from cur [] sep = reverse cur ∷ []
split_from cur (c ∷ s) sep = elim (c == sep) [
  | true ↦ reverse cur ∷ split_from [] s sep
  | false ↦ split_from (c ∷ cur) s sep
]

-- strings.Split where the separator is one byte.
unfoldable pub split_byte : Text → ℕ → List Text
unfolding split_from
split_byte s sep = split_from [] s sep

pub text_eq_refl : (a : Text) → text_eq a a ≡ true
unfolding text_eq
text_eq_refl [] = refl
text_eq_refl (x ∷ a) = ground (arith, text_eq_refl a)

eq_of_text_eq : (a b : Text) → text_eq a b ≡ true → a ≡ b
unfolding text_eq
eq_of_text_eq [] [] h = refl
eq_of_text_eq [] (y ∷ b) h = ground arith
eq_of_text_eq (x ∷ a) [] h = ground arith
eq_of_text_eq (x ∷ a) (y ∷ b) h = ground (arith, eq_of_text_eq a b)

text_eq_of_eq : (a b : Text) → a ≡ b → text_eq a b ≡ true
text_eq_of_eq a b e = rw e (text_eq_refl b)

pub text_eq_iff : (a b : Text) → (text_eq a b ≡ true) ↔ (a ≡ b)
text_eq_iff a b = (eq_of_text_eq a b, text_eq_of_eq a b)
