-- ===== src/Base64.antt =====
-- Base64 as `encode` and `decode` of peer/account/transaction.go use it (base64.StdEncoding): account
-- names, keys, signatures, hashes and block metadata are kept in this form. `decode` skips line
-- breaks, wants padding, and gives no text for anything else that is malformed.
use pokoinpos.Prelude.{
  ℕ, ◌+◌, ◌-◌, ◌*◌, ◌/◌, ◌%◌, ◌&&◌, ◌||◌, Option, none, some, [], ◌∷◌, ltb, leb, ◌==◌,
  if◌then◌else◌,
}
use pokoinpos.Text.{Text}

sextet_char : ℕ → ℕ
sextet_char n =
    if ltb n 26
    then n + 65
    else if ltb n 52
    then n + 71
    else if ltb n 62
    then n - 4
    else if n == 62
    then 43
    else 47

char_sextet : ℕ → Option ℕ
char_sextet c =
    if leb 65 c && leb c 90
    then some (c - 65)
    else if leb 97 c && leb c 122
    then some (c - 71)
    else if leb 48 c && leb c 57
    then some (c + 4)
    else if c == 43
    then some 62
    else if c == 47
    then some 63
    else none

encode_groups : Text → Text
encode_groups [] = []
encode_groups (a ∷ []) = sextet_char (a / 4) ∷ sextet_char ((a % 4) * 16) ∷ 61 ∷ 61 ∷ []
encode_groups (a ∷ b ∷ []) =
    sextet_char (a / 4) ∷ sextet_char ((a % 4) * 16 + b / 16) ∷ sextet_char ((b % 16) * 4) ∷ 61 ∷ []
encode_groups (a ∷ b ∷ c ∷ rest) =
    sextet_char (a / 4)
    ∷ sextet_char ((a % 4) * 16 + b / 16)
    ∷ sextet_char ((b % 16) * 4 + c / 64)
    ∷ sextet_char (c % 64)
    ∷ encode_groups rest

unfoldable pub encode : Text → Text
unfolding encode_groups sextet_char
encode s = encode_groups s

-- Line breaks are skipped wherever they stand.
skip_breaks : Text → Text
skip_breaks [] = []
skip_breaks (c ∷ s) = let rest = skip_breaks s in if (c == 10) || (c == 13) then rest else c ∷ rest

infixl 5 ◌>>=◌
abbrev ◌>>=◌ : {A B : Type 0} → Option A → (A → Option B) → Option B
none >>= f = none
some a >>= f = f a

-- The bytes of a group of two, three or four characters.
one_byte : ℕ → ℕ → Option Text
one_byte a b = do i ← char_sextet a; j ← char_sextet b; some ((i * 4 + j / 16) ∷ [])

two_bytes : ℕ → ℕ → ℕ → Option Text
two_bytes a b c = do
  i ← char_sextet a
  j ← char_sextet b
  k ← char_sextet c
  some ((i * 4 + j / 16) ∷ ((j % 16) * 16 + k / 4) ∷ [])

three_bytes : ℕ → ℕ → ℕ → ℕ → Text → Option Text
three_bytes a b c d rest = do
  i ← char_sextet a
  j ← char_sextet b
  k ← char_sextet c
  l ← char_sextet d
  some ((i * 4 + j / 16) ∷ ((j % 16) * 16 + k / 4) ∷ ((k % 4) * 64 + l) ∷ rest)

-- The last four characters may end in padding.
last_group : ℕ → ℕ → ℕ → ℕ → Option Text
last_group a b c d =
    if d == 61 then if c == 61 then one_byte a b else two_bytes a b c else three_bytes a b c d []

decode_groups : Text → Option Text
decode_groups [] = some []
decode_groups (a ∷ []) = none
decode_groups (a ∷ b ∷ []) = none
decode_groups (a ∷ b ∷ c ∷ []) = none
decode_groups (a ∷ b ∷ c ∷ d ∷ []) = last_group a b c d
decode_groups (a ∷ b ∷ c ∷ d ∷ e ∷ s) = do rest ← decode_groups (e ∷ s); three_bytes a b c d rest

unfoldable pub decode : Text → Option Text
unfolding skip_breaks decode_groups last_group one_byte two_bytes three_bytes char_sextet
decode s = decode_groups (skip_breaks s)
