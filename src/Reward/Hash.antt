-- ===== src/Reward/Hash.antt =====
-- xxhash64 of internal/reward/reward.go and the Twox hashes built on it. A uint64 is a number below
-- 2^64, and every sum, product and shift is reduced as in the source.
use Prim.Native.Nat.{bit_xor, bit_or}
use collator.Prelude.{
  ℕ, zero, suc, ◌+◌, ◌-◌, ◌*◌, ◌/◌, ◌%◌, ◌^◌, two64, List, [], ◌∷◌, ◌++◌, length, take, drop, leb,
  if◌then◌else◌, ◌≡◌, arith, length-append,
}
use collator.Reward.Codec.{little_endian}
use collator.Reward.Codec.Numbers.{to_bytes, length-to_bytes}

abbrev p1 : ℕ
p1 = 11400714785074694791

abbrev p2 : ℕ
p2 = 14029467366897019727

abbrev p3 : ℕ
p3 = 1609587929392839161

abbrev p4 : ℕ
p4 = 9650029242287828579

abbrev p5 : ℕ
p5 = 2870177450012600261

abbrev add : ℕ → ℕ → ℕ
add a b = (a + b) % two64

abbrev mul : ℕ → ℕ → ℕ
mul a b = (a * b) % two64

abbrev rot : ℕ → ℕ → ℕ
rot x r = bit_or ((x * 2 ^ r) % two64) (x / 2 ^ (64 - r))

abbrev round : ℕ → ℕ → ℕ
round acc lane = mul (rot (add acc (mul lane p2)) 31) p1

record Lanes : Type 0 where
  v1 : ℕ
  v2 : ℕ
  v3 : ℕ
  v4 : ℕ

-- `binary.LittleEndian.Uint64(input[i:])`, with the input from the position on.
abbrev word64 : List ℕ → ℕ
word64 input = little_endian (take 8 input)

-- The first loop, 32 bytes a round; the fuel is the length of the input.
stripes : ℕ → Lanes → List ℕ → Lanes × List ℕ
stripes zero v input = (v, input)
stripes (suc fuel) v input =
    let rest =
      stripes fuel
        (record {
          v1 = round v.v1 (word64 input);
          v2 = round v.v2 (word64 (drop 8 input));
          v3 = round v.v3 (word64 (drop 16 input));
          v4 = round v.v4 (word64 (drop 24 input));
        })
        (drop 32 input) in
    if leb 32 (length input) then rest else (v, input)

merge : ℕ → ℕ → ℕ
merge h v = add (mul (bit_xor h (round 0 v)) p1) p4

-- The second loop, 8 bytes a round.
words : ℕ → ℕ → List ℕ → ℕ × List ℕ
words zero h input = (h, input)
words (suc fuel) h input =
    let rest =
      words fuel (add (mul (rot (bit_xor h (round 0 (word64 input))) 27) p1) p4) (drop 8 input) in
    if leb 8 (length input) then rest else (h, input)

half_word : ℕ → List ℕ → ℕ × List ℕ
half_word h input =
    if leb 4 (length input)
    then (
      add (mul (rot (bit_xor h (mul (little_endian (take 4 input)) p1)) 23) p2) p3,
      drop 4 input,
    )
    else (h, input)

-- The last loop, byte by byte.
tail_bytes : ℕ → List ℕ → ℕ
tail_bytes h [] = h
tail_bytes h (b ∷ bs) = tail_bytes (mul (rot (bit_xor h (mul b p5)) 11) p1) bs

avalanche : ℕ → ℕ
avalanche h0 =
    let h1 = mul (bit_xor h0 (h0 / 2 ^ 33)) p2 in
    let h2 = mul (bit_xor h1 (h1 / 2 ^ 29)) p3 in bit_xor h2 (h2 / 2 ^ 32)

-- The state before the length is added: of the four lanes, or of the seed alone.
started : List ℕ → ℕ → ℕ × List ℕ
unfolding stripes merge
started input seed =
    let (v, rest) =
      stripes (length input)
        (record {
          v1 = add (add seed p1) p2;
          v2 = add seed p2;
          v3 = seed;
          v4 = (seed + two64 - p1) % two64;
        })
        input in
    let mixed = add (add (add (rot v.v1 1) (rot v.v2 7)) (rot v.v3 12)) (rot v.v4 18) in
    if leb 32 (length input)
    then (merge (merge (merge (merge mixed v.v1) v.v2) v.v3) v.v4, rest)
    else (add seed p5, input)

unfoldable pub xxhash64 : List ℕ → ℕ → ℕ
unfolding started words half_word tail_bytes avalanche
xxhash64 input seed =
    let (h0, rest0) = started input seed in
    let (h1, rest1) = words (length input) (add h0 (length input)) rest0 in
    let (h2, rest2) = half_word h1 rest1 in avalanche (tail_bytes h2 rest2)

unfoldable pub twox128 : List ℕ → List ℕ
unfolding xxhash64
twox128 value = to_bytes 8 (xxhash64 value 0) ++ to_bytes 8 (xxhash64 value 1)

unfoldable pub twox64_concat : List ℕ → List ℕ
unfolding xxhash64
twox64_concat value = to_bytes 8 (xxhash64 value 0) ++ value

pub length-twox128 : (value : List ℕ) → length (twox128 value) ≡ 16
unfolding twox128
length-twox128 value = omega (
  arith,
  length-append (to_bytes 8 (xxhash64 value 0)) (to_bytes 8 (xxhash64 value 1)),
  length-to_bytes 8 (xxhash64 value 0),
  length-to_bytes 8 (xxhash64 value 1),
)
