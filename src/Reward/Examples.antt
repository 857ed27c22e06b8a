-- ===== src/Reward/Examples.antt =====
-- Tests of the reward reader.
use collator.Prelude.{
  ℕ, zero, suc, ◌≤◌, ◌<◌, List, [], ◌∷◌, length, drop, replicate, some, All, arith, codes, ◌≡◌,
  refl,
}
use mathlib.Core.List.{flatten}
use collator.Model.{ok}
use collator.Reward.Codec.{decode_account_vector}
use collator.Reward.Codec.Numbers.{IsByte}
use collator.Reward.Codec.Vectors.{
  IsAccount, encode_account_vector, decode-encode_account_vector, decode_account_vector_whole,
}
use collator.Reward.Address.Hex.{hex_decode, hex_decode-encode}
use collator.Reward.Address.Distinct.{account_storage_key-injective}
use collator.Reward.Hash.{xxhash64}
use collator.Reward.Address.{hex_encode, storage_plain_key}

xxhash64_empty : xxhash64 [] 0 ≡ 0xef46db3751d8e999
unfolding xxhash64
xxhash64_empty = refl

xxhash64_letter : xxhash64 (codes "a") 0 ≡ 0xd24ec4f1a98c6e5b
unfolding xxhash64 codes
xxhash64_letter = refl

-- A text of more than 32 bytes, which takes the four lanes.
xxhash64_long : xxhash64 (codes "Nobody inspects the spammish repetition") 0 ≡ 0xfbcea83c8a378bf1
unfolding xxhash64 codes
xxhash64_long = refl

-- The key of `Timestamp.Now` on every Substrate chain.
key_of_timestamp :
    storage_plain_key (codes "Timestamp") (codes "Now")
    ≡ codes "0xf0c365c3cf59d671eb72da0e7a4113c49f1f0515f462cdcf84e0f1d6045dfcbb"
unfolding storage_plain_key codes
key_of_timestamp = refl

hex_decode-encode_example : hex_decode (hex_encode (0 ∷ 255 ∷ [])) ≡ some (0 ∷ 255 ∷ [])
hex_decode-encode_example = hex_decode-encode (0 ∷ 255 ∷ []) (omega arith, (omega arith, tt))

abbrev accounts : List (List ℕ)
accounts = replicate 32 1 ∷ replicate 32 2 ∷ []

decode-encode_account_vector_example :
    decode_account_vector (encode_account_vector accounts) ≡ ok accounts
decode-encode_account_vector_example =
    decode-encode_account_vector accounts (omega arith) (refl, (refl, tt))

decode_account_vector_whole_example :
    (length accounts ≤ 1024)
    × All IsAccount accounts
    × ((width : ℕ) × (width ≤ 4) × (flatten accounts ≡ drop width (8 ∷ flatten accounts)))
unfolding decode_account_vector flatten
decode_account_vector_whole_example = decode_account_vector_whole (8 ∷ flatten accounts) refl

-- A digest of 16 bytes, for the test.
abbrev digest : List ℕ → List ℕ
digest x = replicate 16 9

abbrev ones : List ℕ
ones = replicate 32 1

account_storage_key-injective_example : ones ≡ ones
account_storage_key-injective_example =
    account_storage_key-injective digest digest ones ones (λ x. (refl, bytes 16 9 (omega arith)))
      (bytes 32 1 (omega arith)) (bytes 32 1 (omega arith)) refl
  where
    bytes : (n b : ℕ) → b < 256 → All IsByte (replicate n b)
    bytes zero b h = tt
    bytes (suc n) b h = (h, bytes n b h)
