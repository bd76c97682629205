-- ===== src/Prelude/Int.antt =====
-- Signed integers over the native numbers, and Go's `int` on a 64-bit machine: its operations wrap
-- around modulo 2^64.
use pokoinpos.Prelude.Run.{Run, done, panic}
use Prim.Native.Nat.{ℕ, suc, ◌+◌, ◌-◌, ◌*◌, ◌/◌, ◌%◌, ◌≤◌, ◌<◌}
use mathlib.Core.Path.{◌≡◌}
use mathlib.Core.Bool.{Bool, ◌&&◌}
use native.Mathlib.Omega.{arith}
use pokoinpos.Prelude.Tests.{ltb, leb, ◌==◌, if◌then◌else◌}

-- `negsuc n` is -(n + 1).
pub data ℤ : Type 0 where
  pos : ℕ → ℤ
  negsuc : ℕ → ℤ

abbrev pub pos_part : ℤ → ℕ
pos_part (pos n) = n
pos_part (negsuc n) = 0

abbrev pub neg_part : ℤ → ℕ
neg_part (pos n) = 0
neg_part (negsuc n) = suc n

-- a - b, as an integer.
abbrev pub sub_ℕ : ℕ → ℕ → ℤ
sub_ℕ a b = if leb b a then pos (a - b) else negsuc (b - a - 1)

infixl 65 ◌+ℤ◌ ◌-ℤ◌
infixl 70 ◌*ℤ◌
infix 50 ◌≤ℤ◌
unfoldable pub ◌+ℤ◌ : ℤ → ℤ → ℤ
a +ℤ b = sub_ℕ (pos_part a + pos_part b) (neg_part a + neg_part b)

unfoldable pub ◌-ℤ◌ : ℤ → ℤ → ℤ
a -ℤ b = sub_ℕ (pos_part a + neg_part b) (neg_part a + pos_part b)

unfoldable pub ◌*ℤ◌ : ℤ → ℤ → ℤ
a *ℤ b =
    sub_ℕ (pos_part a * pos_part b + neg_part a * neg_part b)
      (pos_part a * neg_part b + neg_part a * pos_part b)

abbrev pub ◌≤ℤ◌ : ℤ → ℤ → Type 0
a ≤ℤ b = pos_part a + neg_part b ≤ pos_part b + neg_part a

abbrev pub ltb_ℤ : ℤ → ℤ → Bool
ltb_ℤ a b = ltb (pos_part a + neg_part b) (pos_part b + neg_part a)

abbrev pub leb_ℤ : ℤ → ℤ → Bool
leb_ℤ a b = leb (pos_part a + neg_part b) (pos_part b + neg_part a)

abbrev pub eqb_ℤ : ℤ → ℤ → Bool
eqb_ℤ a b = (pos_part a == pos_part b) && (neg_part a == neg_part b)

pub +ℤ_parts :
    (a b : ℤ)
    → pos_part (a +ℤ b) + neg_part a + neg_part b ≡ neg_part (a +ℤ b) + pos_part a + pos_part b
unfolding ◌+ℤ◌
+ℤ_parts a b = ground arith

pub -ℤ_parts :
    (a b : ℤ)
    → pos_part (a -ℤ b) + neg_part a + pos_part b ≡ neg_part (a -ℤ b) + pos_part a + neg_part b
unfolding ◌-ℤ◌
-ℤ_parts a b = ground arith

pub eq_of_parts : (a b : ℤ) → pos_part a + neg_part b ≡ pos_part b + neg_part a → a ≡ b
eq_of_parts a b h = ground arith

pub ruleset int_laws = (arith, +ℤ_parts, -ℤ_parts, eq_of_parts)

-- The number with the same 64 bits, read as a signed integer.
unfoldable pub wrap : ℤ → ℤ
wrap (pos n) =
    let m = n % 18446744073709551616 in
    if ltb m 9223372036854775808 then pos m else negsuc (18446744073709551615 - m)
wrap (negsuc n) =
    let m = n % 18446744073709551616 in
    if ltb m 9223372036854775808 then negsuc m else pos (18446744073709551615 - m)

unfoldable pub add_int : ℤ → ℤ → ℤ
unfolding wrap ◌+ℤ◌
add_int a b = wrap (a +ℤ b)

unfoldable pub sub_int : ℤ → ℤ → ℤ
unfolding wrap ◌-ℤ◌
sub_int a b = wrap (a -ℤ b)

unfoldable pub mul_int : ℤ → ℤ → ℤ
unfolding wrap ◌*ℤ◌
mul_int a b = wrap (a *ℤ b)

-- Division that rounds towards zero, for a divisor that the code has tested not to be zero.
unfoldable pub quotient : ℤ → ℤ → ℤ
unfolding wrap
quotient (pos a) (pos b) = pos (a / b)
quotient (pos a) (negsuc b) = sub_ℕ 0 (a / suc b)
quotient (negsuc a) (pos b) = sub_ℕ 0 (suc a / b)
quotient (negsuc a) (negsuc b) = wrap (pos (suc a / suc b))

-- Division where nothing was tested: a zero divisor panics.
unfoldable pub div_int : ℤ → ℤ → Run ℤ
unfolding quotient
div_int a b = if eqb_ℤ b (pos 0) then panic else done (quotient a b)

-- The conversion uint64(x).
unfoldable pub to_uint64 : ℤ → ℕ
to_uint64 (pos n) = n % 18446744073709551616
to_uint64 (negsuc n) = 18446744073709551615 - n % 18446744073709551616

-- The values that an `int` can hold.
abbrev pub InInt : ℤ → Type 0
InInt z = (pos_part z < 9223372036854775808) × (neg_part z ≤ 9223372036854775808)

pub wrap-InInt : (z : ℤ) → InInt (wrap z)
unfolding wrap
wrap-InInt (pos n) = ground arith
wrap-InInt (negsuc n) = ground arith

pub wrap_id : (z : ℤ) → InInt z → wrap z ≡ z
unfolding wrap
wrap_id (pos n) h = ground arith
wrap_id (negsuc n) h = ground arith

-- Wrapping moves a number by a multiple of 2^64.
pub add_int_id : (a b : ℤ) → InInt (a +ℤ b) → add_int a b ≡ a +ℤ b
unfolding add_int
add_int_id a b h = wrap_id (a +ℤ b) h

pub sub_int_id : (a b : ℤ) → InInt (a -ℤ b) → sub_int a b ≡ a -ℤ b
unfolding sub_int
sub_int_id a b h = wrap_id (a -ℤ b) h

pub add_int-pos : (a b : ℕ) → a + b < 9223372036854775808 → add_int (pos a) (pos b) ≡ pos (a + b)
unfolding add_int
add_int-pos a b h = ground arith

pub sub_int-pos :
    (a b : ℕ) → b ≤ a → a < 9223372036854775808 → sub_int (pos a) (pos b) ≡ pos (a - b)
unfolding sub_int
sub_int-pos a b le h = ground arith

pub mul_int-pos : (a b : ℕ) → a * b < 9223372036854775808 → mul_int (pos a) (pos b) ≡ pos (a * b)
unfolding mul_int
mul_int-pos a b h = ground arith

pub div_int-pos : (a b : ℕ) → 0 < b → div_int (pos a) (pos b) ≡ done (pos (a / b))
unfolding div_int
div_int-pos a b h = ground arith
