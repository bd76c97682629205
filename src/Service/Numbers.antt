-- ===== src/Service/Numbers.antt =====
-- hexQuantity and the reading of a quantity, parseHexUint64.
use pokoinpos.Prelude.{
  ℕ, zero, suc, ◌+◌, ◌*◌, ◌/◌, ◌%◌, ◌^◌, ◌<◌, true, false, some, [], ◌∷◌, ◌++◌, ◌≡◌, refl, arith,
  ◌∙◌, ap,
}
use native.Mathlib.Numerals.{unary_clauses}
use pokoinpos.Prelude.Int.{pos}
use pokoinpos.Text.{Text, txt, trim_prefix, has_prefix, is_empty}
use pokoinpos.Text.Trim.{has_no_space, trim_space_id}
use pokoinpos.Text.Hex.{hex_char, hex_value, hex_digits, hex_text}
use pokoinpos.Explorer.Rpc.{hex_number, parse_hex_uint64}
use pokoinpos.Service.{hex_quantity}

hex_value-hex_char : (n : ℕ) → n < 16 → hex_value (hex_char n) ≡ some n
unfolding hex_value hex_char
hex_value-hex_char n h = ground arith

hex_number-char :
    (acc n : ℕ) (s : Text) → n < 16 → hex_number acc (hex_char n ∷ s) ≡ hex_number (acc * 16 + n) s
unfolding hex_number
hex_number-char acc n s h = rw (hex_number, hex_value-hex_char n h) refl

div_mod : (n : ℕ) → n / 16 * 16 + n % 16 ≡ n
div_mod n = omega arith

div_below : (n m : ℕ) → n < 16 * m → n / 16 < m
div_below n m h = omega arith

-- The digits of a number, read from 0, give the number.
hex_number-digits :
    (fuel n : ℕ) (s : Text) → n < 16 ^ fuel → hex_number 0 (hex_digits fuel n s) ≡ hex_number n s
unfolding hex_digits
hex_number-digits zero n s h = ap (λ k. hex_number k s) (omega arith)
hex_number-digits (suc fuel) n s h =
    let more =
      hex_number-digits fuel (n / 16) (hex_char (n % 16) ∷ s)
        (div_below n (16 ^ fuel) (let h' = simp unary_clauses at h in omega arith)) in
    let last = hex_number-char (n / 16) (n % 16) s (omega arith) in
    let first = hex_number-char 0 n s in
    let whole = ap (λ k. hex_number k s) (div_mod n) in ground arith

has_no_space-char :
    (n : ℕ) (s : Text) → n < 16 → has_no_space s ≡ true → has_no_space (hex_char n ∷ s) ≡ true
unfolding has_no_space hex_char
has_no_space-char n s h e = ground arith

no_space-digits :
    (fuel n : ℕ) (s : Text) → has_no_space s ≡ true → has_no_space (hex_digits fuel n s) ≡ true
unfolding hex_digits
no_space-digits zero n s h = h
no_space-digits (suc fuel) n s h =
    let more = no_space-digits fuel (n / 16) (hex_char (n % 16) ∷ s) in
    let last = has_no_space-char (n % 16) s (omega arith) in
    let first = has_no_space-char n s in ground arith

is_empty-digits : (fuel n c : ℕ) (s : Text) → is_empty (hex_digits fuel n (c ∷ s)) ≡ false
unfolding hex_digits
is_empty-digits zero n c s = refl
is_empty-digits (suc fuel) n c s =
    let more = is_empty-digits fuel (n / 16) (hex_char (n % 16)) (c ∷ s) in ground arith

no_space-quantity : (s : Text) → has_no_space s ≡ true → has_no_space (txt "0x" ++ s) ≡ true
unfolding has_no_space
no_space-quantity s h = h

is_empty-text : (n : ℕ) → is_empty (hex_text n) ≡ false
unfolding hex_text hex_digits
is_empty-text n = let more = is_empty-digits 63 (n / 16) (hex_char (n % 16)) [] in ground arith

parse_hex_uint64-digits :
    (s : Text) (n : ℕ)
    → has_no_space s ≡ true
    → is_empty s ≡ false
    → hex_number 0 s ≡ some n
    → n < 2 ^ 64
    → parse_hex_uint64 (txt "0x" ++ s) ≡ some n
unfolding parse_hex_uint64 trim_prefix has_prefix
parse_hex_uint64-digits s n clean full e h =
    let same = trim_space_id (txt "0x" ++ s) (no_space-quantity s clean) in
    rw (parse_hex_uint64, same, full, e) (ground arith)

hex_quantity-suc : (k : ℕ) → hex_quantity (pos (suc k)) ≡ txt "0x" ++ hex_text (suc k)
unfolding hex_quantity
hex_quantity-suc k = ground arith

no_space-text : (n : ℕ) → has_no_space (hex_text n) ≡ true
unfolding hex_text has_no_space
no_space-text n = no_space-digits 64 n [] refl

hex_number-text : (n : ℕ) → n < 2 ^ 64 → hex_number 0 (hex_text n) ≡ some n
unfolding hex_text hex_number
hex_number-text n h = hex_number-digits 64 n [] (omega arith)

-- A quantity that is written by hexQuantity from a number of 64 bits is read back as that number.
pub parse_hex_uint64-hex_quantity :
    (n : ℕ) → n < 2 ^ 64 → parse_hex_uint64 (hex_quantity (pos n)) ≡ some n
parse_hex_uint64-hex_quantity zero h =
    unfold hex_quantity in
    parse_hex_uint64-digits (txt "0") 0 (unfold has_no_space in refl) refl
      (unfold hex_number hex_value in refl) h
parse_hex_uint64-hex_quantity (suc k) h =
    ap parse_hex_uint64 (hex_quantity-suc k)
    ∙ parse_hex_uint64-digits (hex_text (suc k)) (suc k) (no_space-text (suc k))
        (is_empty-text (suc k)) (hex_number-text (suc k) h) h
