-- ===== src/Reward/Codec/Numbers.antt =====
-- Numbers in little-endian bytes: the reading inverts the writing, and the two readings agree.
use Prim.Native.Nat.{bit_and}
use collator.Prelude.{
  ℕ, zero, suc, ◌/◌, ◌%◌, ◌^◌, ◌<◌, List, [], ◌∷◌, length, ◌≡◌, refl, ap, arith, All, ◌==◌, ==_iff,
  Bool, true, ◌&&◌, inl, inr, Bool-cases,
}
use mathlib.Core.List.{reverse, reverse-cons, foldl-append}
use native.Mathlib.Nat.{pow-suc}
use collator.Reward.Codec.{little_endian, little_int, shift_in}

abbrev pub IsByte : ℕ → Type 0
IsByte b = b < 256

-- `n` in `k` bytes, the least significant one first.
abbrev pub to_bytes : ℕ → ℕ → List ℕ
to_bytes zero n = []
to_bytes (suc k) n = n % 256 ∷ to_bytes k (n / 256)

pub length-to_bytes : (k n : ℕ) → length (to_bytes k n) ≡ k
length-to_bytes zero n = refl
length-to_bytes (suc k) n = ap suc (length-to_bytes k (n / 256))

div_below : (k n : ℕ) → n < 256 ^ suc k → n / 256 < 256 ^ k
div_below k n h = let e = pow-suc 256 k in omega arith

pub little_endian-to_bytes : (k n : ℕ) → n < 256 ^ k → little_endian (to_bytes k n) ≡ n
little_endian-to_bytes zero n h = omega arith
little_endian-to_bytes (suc k) n h =
    omega (arith, little_endian-to_bytes k (n / 256) (div_below k n h))

pub little_int-little_endian : (raw : List ℕ) → little_int raw ≡ little_endian raw
unfolding little_int
little_int-little_endian [] = refl
little_int-little_endian (b ∷ bs) =
    rw (reverse-cons b bs, foldl-append shift_in 0 (reverse bs) (b ∷ []))
      (omega (arith, little_int-little_endian bs))

-- The two low bits of each number below a bound, by evaluation.
low_bits_agree : ℕ → Bool
low_bits_agree zero = true
low_bits_agree (suc k) = low_bits_agree k && bit_and k 3 == k % 4

below-low_bits : (k x : ℕ) → x < k → low_bits_agree k ≡ true → bit_and x 3 ≡ x % 4
unfolding low_bits_agree
below-low_bits zero x below agree = absurd (omega arith)
below-low_bits (suc k) x below agree = elim (Bool-cases (x == k)) [
  | inl top ↦
      let same : x ≡ k = (==_iff x k).0 top in
      rw same ((==_iff (bit_and k 3) (k % 4)).0 (ground arith))
  | inr under ↦ below-low_bits k x (ground arith) (ground arith)
]

of_bytes : low_bits_agree 256 ≡ true
unfolding low_bits_agree
of_bytes = refl

pub bit_and-three : (x : ℕ) → IsByte x → bit_and x 3 ≡ x % 4
bit_and-three x h = below-low_bits 256 x h of_bytes

pub to_bytes-IsByte : (k n : ℕ) → All IsByte (to_bytes k n)
to_bytes-IsByte zero n = tt
to_bytes-IsByte (suc k) n = (omega arith, to_bytes-IsByte k (n / 256))
