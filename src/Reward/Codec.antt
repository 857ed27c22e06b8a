-- ===== src/Reward/Codec.antt =====
-- The decoders of internal/reward/reward.go, over lists of bytes.
pub mod Numbers
pub mod Vectors
use Prim.Native.Nat.{bit_and}
use collator.Prelude.{
  ℕ, zero, suc, ◌+◌, ◌-◌, ◌*◌, ◌/◌, ◌%◌, ℤ, pos, signed64, List, [], ◌∷◌, ◌++◌, length, take, drop,
  Bool, true, false, ◌&&◌, ◌||◌, not, ltb, leb, ◌==◌, eqb_ℤ, if◌then◌else◌,
}
use mathlib.Core.List.{reverse, foldl}
use collator.Model.{Error, plain, Result, ok, err, ◌>>=◌}

abbrev pub existential_deposit : ℕ
existential_deposit = 1000000

-- `IsSupportedSpecVersion`
unfoldable pub is_supported_spec_version : ℤ → Bool
is_supported_spec_version v =
    eqb_ℤ v (pos 2208) || (eqb_ℤ v (pos 2300) || (eqb_ℤ v (pos 2400) || eqb_ℤ v (pos 2500)))

-- `raw[i:j]`, for bounds within the slice.
abbrev pub slice : ℕ → ℕ → List ℕ → List ℕ
slice i j raw = take (j - i) (drop i raw)

-- encoding/binary's little-endian reading of a whole slice.
abbrev pub little_endian : List ℕ → ℕ
little_endian [] = 0
little_endian (b ∷ bs) = b + 256 * little_endian bs

abbrev pub shift_in : ℕ → ℕ → ℕ
shift_in n b = n * 256 + b

-- math/big's `SetBytes` (the most significant byte first), on the reversed copy.
unfoldable pub little_int : List ℕ → ℕ
little_int raw = foldl shift_in 0 (reverse raw)

pub record AccountInfo : Type 0 where
  pub free : ℕ
  pub reserved : ℕ
  pub schema_ok : Bool

unfoldable pub decode_account_info : List ℕ → Result AccountInfo
unfolding little_int
decode_account_info raw =
    if ltb (length raw) 48
    then err (plain "account info too short")
    else ok (record {
      free = little_int (slice 16 32 raw);
      reserved = little_int (slice 32 48 raw);
      schema_ok = length raw == 80;
    })

unfoldable pub decode_block_number : List ℕ → Result ℤ
decode_block_number raw =
    if length raw == 4
    then ok (pos (little_endian raw))
    else (if length raw == 8
        then ok (signed64 (little_endian raw))
        else err (plain "unsupported block number length"))

-- `decodeCompact`: the number, and the bytes that it takes.
unfoldable pub decode_compact : List ℕ → Result (ℕ × ℕ)
decode_compact [] = err (plain "empty compact")
decode_compact (b ∷ bs) =
    let raw = b ∷ bs in
    if bit_and b 3 == 0
    then ok (b / 4, 1)
    else (if bit_and b 3 == 1
        then (if ltb (length raw) 2
            then err (plain "short compact")
            else ok (little_endian (take 2 raw) / 4, 2))
        else (if bit_and b 3 == 2
            then (if ltb (length raw) 4
                then err (plain "short compact")
                else ok (little_endian (take 4 raw) / 4, 4))
            else err (plain "large compact vectors are not supported")))

-- The loop of `DecodeAccountVector`: `count` accounts of 32 bytes, from `offset` on.
unfoldable pub accounts_from : ℕ → ℕ → List ℕ → List (List ℕ)
accounts_from zero offset raw = []
accounts_from (suc count) offset raw =
    slice offset (offset + 32) raw ∷ accounts_from count (offset + 32) raw

unfoldable pub decode_account_vector : List ℕ → Result (List (List ℕ))
unfolding decode_compact accounts_from
decode_account_vector raw = do
  (count, offset) ← decode_compact raw
  if ltb 1024 count || not (offset + count * 32 == length raw)
      then err (plain "invalid account vector")
      else ok (accounts_from count offset raw)

-- `ExpectedReward`: half of what the pot holds above the existential deposit.
unfoldable pub expected_reward : ℕ → ℕ
expected_reward pot = if leb pot existential_deposit then 0 else (pot - existential_deposit) / 2
