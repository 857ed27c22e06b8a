-- ===== src/Prelude/Int.antt =====
-- Signed integers over the native numbers (the library's ℤ stands on the unary ones), and Go's
-- int64 on them: the value is an integer, and each sum or difference wraps to 64 bits.
use Prim.Native.Nat.{ℕ, suc, ◌+◌, ◌-◌, ◌%◌, ◌≤◌, ◌<◌}
use mathlib.Core.Path.{◌≡◌}
use mathlib.Core.Bool.{Bool}
use native.Mathlib.Omega.{arith}
use collator.Prelude.Tests.{ltb, leb, ◌==◌, if◌then◌else◌}

-- `negsuc n` is -(n + 1).
pub data ℤ : Type 0 where
  pos : ℕ → ℤ
  negsuc : ℕ → ℤ

abbrev pub pos_part : ℤ → ℕ
pos_part (pos n) = n
pos_part (negsuc n) = 0

abbrev pub neg_part : ℤ → ℕ
neg_part (pos n) = 0
neg_part (negsuc n) = suc n

-- a - b, as an integer.
abbrev pub sub_ℕ : ℕ → ℕ → ℤ
sub_ℕ a b = if leb b a then pos (a - b) else negsuc (b - a - 1)

infix 50 ◌≤ℤ◌ ◌<ℤ◌
abbrev pub ◌≤ℤ◌ : ℤ → ℤ → Type 0
a ≤ℤ b = pos_part a + neg_part b ≤ pos_part b + neg_part a

abbrev pub ◌<ℤ◌ : ℤ → ℤ → Type 0
a <ℤ b = pos_part a + neg_part b < pos_part b + neg_part a

abbrev pub ltb_ℤ : ℤ → ℤ → Bool
ltb_ℤ a b = ltb (pos_part a + neg_part b) (pos_part b + neg_part a)

abbrev pub leb_ℤ : ℤ → ℤ → Bool
leb_ℤ a b = leb (pos_part a + neg_part b) (pos_part b + neg_part a)

abbrev pub eqb_ℤ : ℤ → ℤ → Bool
eqb_ℤ a b = pos_part a + neg_part b == pos_part b + neg_part a

-- Go's `min` and the controller's pairwise `max` on int64.
abbrev pub min_ℤ : ℤ → ℤ → ℤ
min_ℤ a b = if ltb_ℤ b a then b else a

abbrev pub two63 : ℕ
two63 = 9223372036854775808

abbrev pub two64 : ℕ
two64 = 18446744073709551616

-- The values of an int64.
abbrev pub IsInt64 : ℤ → Type 0
IsInt64 a = (pos_part a < two63) × (neg_part a ≤ two63)

-- The int64 with a given bit pattern.
unfoldable pub signed64 : ℕ → ℤ
signed64 u = if ltb u two63 then pos u else negsuc (two64 - 1 - u)

unfoldable pub wrap64 : ℤ → ℤ
unfolding signed64
wrap64 (pos n) = signed64 (n % two64)
wrap64 (negsuc n) = signed64 (two64 - 1 - n % two64)

unfoldable pub add64 : ℤ → ℤ → ℤ
unfolding wrap64
add64 a b = wrap64 (sub_ℕ (pos_part a + pos_part b) (neg_part a + neg_part b))

unfoldable pub sub64 : ℤ → ℤ → ℤ
unfolding wrap64
sub64 a b = wrap64 (sub_ℕ (pos_part a + neg_part b) (neg_part a + pos_part b))

pub wrap64_in_range : (a : ℤ) → IsInt64 a → wrap64 a ≡ a
unfolding wrap64
wrap64_in_range (pos n) h = ground arith
wrap64_in_range (negsuc n) h = ground arith

pub eq_of_parts : (a b : ℤ) → pos_part a + neg_part b ≡ pos_part b + neg_part a → a ≡ b
eq_of_parts a b h = ground arith

sub_ℕ_parts : (a b : ℕ) → pos_part (sub_ℕ a b) + b ≡ neg_part (sub_ℕ a b) + a
sub_ℕ_parts a b = ground arith

sub_ℕ-IsInt64 : (a b : ℕ) → a < b + two63 → b ≤ a + two63 → IsInt64 (sub_ℕ a b)
sub_ℕ-IsInt64 a b h k = ground arith

wrap_sub_ℕ_parts :
    (a b : ℕ)
    → a < b + two63
    → b ≤ a + two63
    → pos_part (wrap64 (sub_ℕ a b)) + b ≡ neg_part (wrap64 (sub_ℕ a b)) + a
wrap_sub_ℕ_parts a b h k =
    rw (wrap64_in_range (sub_ℕ a b) (sub_ℕ-IsInt64 a b h k)) (sub_ℕ_parts a b)

-- A sum that fits into 64 bits is exact; so is a difference.
pub add64_parts :
    (a b : ℤ)
    → pos_part a + pos_part b < neg_part a + neg_part b + two63
    → neg_part a + neg_part b ≤ pos_part a + pos_part b + two63
    → pos_part (add64 a b) + neg_part a + neg_part b
      ≡ neg_part (add64 a b) + pos_part a + pos_part b
unfolding add64
add64_parts a b h k =
    let p = wrap_sub_ℕ_parts (pos_part a + pos_part b) (neg_part a + neg_part b) h k in omega arith

pub sub64_parts :
    (a b : ℤ)
    → pos_part a + neg_part b < neg_part a + pos_part b + two63
    → neg_part a + pos_part b ≤ pos_part a + neg_part b + two63
    → pos_part (sub64 a b) + neg_part a + pos_part b
      ≡ neg_part (sub64 a b) + pos_part a + neg_part b
unfolding sub64
sub64_parts a b h k =
    let p = wrap_sub_ℕ_parts (pos_part a + neg_part b) (neg_part a + pos_part b) h k in omega arith
