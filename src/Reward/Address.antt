-- ===== src/Reward/Address.antt =====
-- SS58 addresses and storage keys of internal/reward/reward.go. The two BLAKE2b digests of the
-- library golang.org/x/crypto are parameters: `sum512`, and `sum128` for the digest of 16 bytes.
pub mod Hex
pub mod Distinct
use collator.Prelude.{
  ℕ, zero, suc, ◌+◌, ◌*◌, ◌/◌, ◌%◌, List, [], ◌∷◌, ◌++◌, length, take, drop, replicate, Bool, true,
  false, not, ◌||◌, leb, ltb, ◌==◌, if◌then◌else◌, Option, none, some, codes,
}
use collator.Model.{Result, ok, err, plain, ◌>>=◌, ◌>>◌, reject}
use collator.Reward.Hash.{twox128, twox64_concat}

abbrev pub hex_digit : ℕ → ℕ
hex_digit n = if ltb n 10 then n + 48 else n + 87

-- encoding/hex
unfoldable pub hex_encode : List ℕ → List ℕ
hex_encode [] = []
hex_encode (b ∷ bs) = hex_digit (b / 16) ∷ (hex_digit (b % 16) ∷ hex_encode bs)

abbrev pub b58_alphabet : List ℕ
b58_alphabet = codes "123456789ABCDEFGHJKLMNPQRSTUVWXYZabcdefghijkmnopqrstuvwxyz"

-- `bytes.IndexByte`
unfoldable pub index_byte : List ℕ → ℕ → Option ℕ
index_byte [] c = none
index_byte (b ∷ bs) c = if b == c then some 0 else next (index_byte bs c)
  where
    next : Option ℕ → Option ℕ
    next none = none
    next (some i) = some (suc i)

-- The first loop of `decodeBase58`.
unfoldable pub base58_number : ℕ → List ℕ → Option ℕ
unfolding index_byte codes
base58_number n [] = some n
base58_number n (c ∷ cs) = elim (index_byte b58_alphabet c) [
  | none ↦ none
  | some index ↦ base58_number (n * 58 + index) cs
]

-- math/big's `Bytes`: the most significant byte first, and no byte for 0. The fuel bounds the
-- number of bytes.
unfoldable pub big_bytes : ℕ → ℕ → List ℕ → List ℕ
big_bytes zero n out = out
big_bytes (suc fuel) n out =
    let rest = big_bytes fuel (n / 256) (n % 256 ∷ out) in if n == 0 then out else rest

-- The second loop: a zero byte for each leading `1`.
unfoldable pub leading_ones : List ℕ → ℕ
leading_ones [] = 0
leading_ones (c ∷ cs) = if c == 49 then suc (leading_ones cs) else 0

unfoldable pub decode_base58 : List ℕ → Result (List ℕ)
unfolding base58_number big_bytes leading_ones
decode_base58 value = elim (base58_number 0 value) [
  | none ↦ err (plain "invalid base58 character")
  | some n ↦ ok (replicate (leading_ones value) 0 ++ big_bytes (length value) n [])
]

-- Equality of byte lists, as `subtle.ConstantTimeCompare` decides it.
unfoldable pub same_bytes : List ℕ → List ℕ → Bool
same_bytes [] [] = true
same_bytes [] (b ∷ bs) = false
same_bytes (a ∷ as') [] = false
same_bytes (a ∷ as') (b ∷ bs) = if a == b then same_bytes as' bs else false

pub record Keys : Type 0 where
  pub account_id : List ℕ
  pub wallet_account : List ℕ
  pub pot_account : List ℕ
  pub last_authored : List ℕ
  pub validators : List ℕ
  pub timestamp_now : List ℕ

unfoldable pub storage_plain_key : List ℕ → List ℕ → List ℕ
unfolding hex_encode twox128
storage_plain_key pallet item = codes "0x" ++ hex_encode (twox128 pallet ++ twox128 item)

unfoldable pub storage_map_key : List ℕ → List ℕ → List ℕ → List ℕ
unfolding hex_encode twox128
storage_map_key pallet item suffix =
    codes "0x" ++ hex_encode ((twox128 pallet ++ twox128 item) ++ suffix)

module _ (sum512 sum128 : List ℕ → List ℕ) where
  -- `DecodeSS58`: the account, and the prefix byte.
  unfoldable pub decode_ss58 : List ℕ → Result (List ℕ × ℕ)
  unfolding decode_base58 same_bytes
  decode_ss58 address = elim (decode_base58 address) [
    | err e ↦ err (plain "invalid SS58 address")
    | ok [] ↦ err (plain "invalid SS58 address")
    | ok (prefix ∷ rest) ↦
        let raw = prefix ∷ rest in
        if not (length raw == 35)
        then err (plain "invalid SS58 address")
        else (if leb 64 prefix
            then err (plain "two-byte SS58 prefixes are not supported")
            else (if not
                  (same_bytes (drop 33 raw) (take 2 (sum512 (codes "SS58PRE" ++ take 33 raw))))
                then err (plain "invalid SS58 checksum")
                else ok (take 32 rest, prefix)))
  ]

  unfoldable pub account_storage_key : List ℕ → List ℕ
  unfolding storage_map_key
  account_storage_key account =
      storage_map_key (codes "System") (codes "Account") (sum128 account ++ account)

  -- `[32]byte{}` with the pot's name copied to its front.
  abbrev pub pot_account_id : List ℕ
  pot_account_id = codes "modlPotStake" ++ replicate 20 0

  unfoldable pub storage_keys : List ℕ → Result Keys
  unfolding decode_ss58 account_storage_key storage_plain_key twox64_concat
  storage_keys address = do
    (account, prefix) ← decode_ss58 address
    reject (not (prefix == 5)) (plain "unexpected SS58 prefix")
    ok (record {
      account_id = account;
      wallet_account = account_storage_key account;
      pot_account = account_storage_key pot_account_id;
      last_authored =
          storage_map_key (codes "CollatorSelection") (codes "LastAuthoredBlock")
            (twox64_concat account);
      validators = storage_plain_key (codes "Session") (codes "Validators");
      timestamp_now = storage_plain_key (codes "Timestamp") (codes "Now");
    })
