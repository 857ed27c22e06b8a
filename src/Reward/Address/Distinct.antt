-- ===== src/Reward/Address/Distinct.antt =====
-- Distinct accounts have distinct storage keys, whatever the digest does.
use collator.Prelude.{
  ℕ, List, ◌++◌, length, ◌≡◌, sym, ap, ◌∙◌, arith, All, All-append, drop, drop-append,
  length-append, codes,
}
use collator.Reward.Codec.Numbers.{IsByte, to_bytes, to_bytes-IsByte}
use collator.Reward.Hash.{xxhash64, twox128, length-twox128}
use collator.Reward.Address.{account_storage_key, storage_map_key}
use collator.Reward.Address.Hex.{hex_encode-injective}

twox128-IsByte : (value : List ℕ) → All IsByte (twox128 value)
unfolding twox128
twox128-IsByte value =
    All-append IsByte (to_bytes 8 (xxhash64 value 0)) (to_bytes 8 (xxhash64 value 1))
      (to_bytes-IsByte 8 (xxhash64 value 0)) (to_bytes-IsByte 8 (xxhash64 value 1))

-- The hash of the storage map, before the digest.
abbrev system_account : List ℕ
unfolding codes
system_account = twox128 (codes "System") ++ twox128 (codes "Account")

length-system_account : length system_account ≡ 32
unfolding codes
length-system_account = omega (
  arith,
  length-append (twox128 (codes "System")) (twox128 (codes "Account")),
  length-twox128 (codes "System"),
  length-twox128 (codes "Account"),
)

system_account-IsByte : All IsByte system_account
unfolding codes
system_account-IsByte =
    All-append IsByte (twox128 (codes "System")) (twox128 (codes "Account"))
      (twox128-IsByte (codes "System")) (twox128-IsByte (codes "Account"))

-- For every digest that gives 16 bytes: two accounts whose balances are stored under the same key
-- are the same account.
pub account_storage_key-injective :
    (sum512 sum128 : List ℕ → List ℕ) (a b : List ℕ)
    → ((x : List ℕ) → (length (sum128 x) ≡ 16) × All IsByte (sum128 x))
    → All IsByte a
    → All IsByte b
    → account_storage_key sum512 sum128 a ≡ account_storage_key sum512 sum128 b
    → a ≡ b
unfolding account_storage_key storage_map_key codes
account_storage_key-injective sum512 sum128 a b digest ha hb e =
    let whole =
      hex_encode-injective (system_account ++ (sum128 a ++ a)) (system_account ++ (sum128 b ++ b))
        (bytes a ha) (bytes b hb) (ap (drop 2) e) in
    sym (after_head a) ∙ ap (λ t. drop 16 (drop 32 t)) whole ∙ after_head b
  where
    bytes : (x : List ℕ) → All IsByte x → All IsByte (system_account ++ (sum128 x ++ x))
    bytes x hx =
        All-append IsByte system_account (sum128 x ++ x) system_account-IsByte
          (All-append IsByte (sum128 x) x (digest x).1 hx)

    after_head : (x : List ℕ) → drop 16 (drop 32 (system_account ++ (sum128 x ++ x))) ≡ x
    after_head x =
        rw (drop-append 32 system_account (sum128 x ++ x) length-system_account)
          (drop-append 16 (sum128 x) x (digest x).0)
