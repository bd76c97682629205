-- ===== src/Text/Hex.antt =====
-- The package encoding/hex, and big.Int's decimal texts.
use pokoinpos.Prelude.{
  ℕ, zero, suc, ◌+◌, ◌-◌, ◌*◌, ◌/◌, ◌%◌, ◌&&◌, Option, none, some, [], ◌∷◌, leb, ltb, if◌then◌else◌,
  ◌==◌,
}
use pokoinpos.Text.{Text}
use pokoinpos.Text.Decimal.{digits_from}

unfoldable pub hex_char : ℕ → ℕ
hex_char n = if ltb n 10 then n + 48 else n + 87

unfoldable pub hex_value : ℕ → Option ℕ
hex_value c =
    if leb 48 c && leb c 57
    then some (c - 48)
    else if leb 97 c && leb c 102
    then some (c - 87)
    else if leb 65 c && leb c 70
    then some (c - 55)
    else none

-- hex.EncodeToString
unfoldable pub hex_encode : Text → Text
unfolding hex_char
hex_encode [] = []
hex_encode (b ∷ s) = hex_char (b / 16) ∷ hex_char (b % 16) ∷ hex_encode s

infixl 5 ◌>>=◌
abbrev ◌>>=◌ : {A B : Type 0} → Option A → (A → Option B) → Option B
none >>= f = none
some a >>= f = f a

-- hex.DecodeString
unfoldable pub hex_decode : Text → Option Text
unfolding hex_value
hex_decode [] = some []
hex_decode (c ∷ []) = none
hex_decode (c ∷ d ∷ s) = do
  rest ← hex_decode s
  h ← hex_value c
  l ← hex_value d
  some ((h * 16 + l) ∷ rest)

-- big.Int.String on a number below 2^256, which has at most 78 digits.
unfoldable pub big_int_text : ℕ → Text
unfolding digits_from
big_int_text n = digits_from 80 n []

digits_value : ℕ → Text → Option ℕ
digits_value acc [] = some acc
digits_value acc (c ∷ s) =
    let rest = digits_value (acc * 10 + (c - 48)) s in if leb 48 c && leb c 57 then rest else none

unsigned : Text → Option ℕ
unsigned [] = none
unsigned (c ∷ s) = digits_value 0 (c ∷ s)

-- big.Int.SetString in base 10; `none` where it fails and where a minus sign is in front.
unfoldable pub big_int_value : Text → Option ℕ
unfolding digits_value unsigned
big_int_value [] = none
big_int_value (c ∷ s) = if c == 43 then unsigned s else unsigned (c ∷ s)

-- The hexadecimal digits of a number, on fuel that is at least their number.
unfoldable pub hex_digits : ℕ → ℕ → Text → Text
unfolding hex_char
hex_digits zero n acc = acc
hex_digits (suc fuel) n acc =
    let more = hex_digits fuel (n / 16) (hex_char (n % 16) ∷ acc) in
    if ltb n 16 then hex_char n ∷ acc else more

-- big.Int.Text in base 16, on a number below 2^256.
unfoldable pub hex_text : ℕ → Text
hex_text n = hex_digits 64 n []
