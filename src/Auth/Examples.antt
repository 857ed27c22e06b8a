-- ===== src/Auth/Examples.antt =====
-- Passwords, codes and secrets on concrete inputs, with stand-ins for the cryptography.
use collator.Prelude.{
  ℕ, zero, suc, ◌+◌, ◌*◌, ◌-◌, List, [], ◌∷◌, map, replicate, length, Bool, true, false, none, some,
  utf8, trim_space, second, minute, ◌≡◌, refl, ap, arith, leb, if◌then◌else◌,
}
use collator.Model.{ok}
use collator.Auth.{Bytes, Crypto, same_bytes}
use collator.Auth.Password.{hash_password, verify_password, scan_costs, memory_cost}
use collator.Auth.Policy.{valid_username, valid_password}
use collator.Auth.Roundtrip.{IsPlain, Standard, verify-hash_password}
use collator.Auth.Totp.{totp, validate_totp, unix_epoch, big_endian, six_digits}
use collator.Auth.Window.{validate_totp_near}

-- Each byte is moved out of the way of `$`.
abbrev shifted : Bytes → Bytes
shifted [] = []
shifted (x ∷ xs) = (x + 64) ∷ shifted xs

abbrev unshifted : Bytes → Bytes
unshifted [] = []
unshifted (x ∷ xs) = (x - 64) ∷ unshifted xs

abbrev total : Bytes → ℕ
total [] = 0
total (x ∷ xs) = x + total xs

-- A code that depends on the key and on the step of the clock.
abbrev pub toy : Crypto
toy = record {
  sha256 = λ text. text;
  hmac_sha1 = λ key message i. (total key + total message) + i;
  argon2 = λ password salt t m p n. replicate n (total password + total salt);
  seal = λ key nonce plain context. shifted plain;
  unseal = λ key nonce sealed context. some (unshifted sealed);
  base64 = shifted;
  base64_decode = λ text. some (unshifted text);
  base64_padded_decode = λ text. some (replicate 32 7);
  base64_url = λ raw.
      if leb (total raw) 50 then "small" else (if leb (total raw) 400 then "middle" else "large");
  base64_url_decode = λ text. some (replicate 12 1);
  base32 = λ raw. raw;
  base32_decode = λ text. some text;
}

shifted-IsPlain : (xs : Bytes) → IsPlain (shifted xs)
shifted-IsPlain [] = tt
shifted-IsPlain (x ∷ xs) = (ground arith, shifted-IsPlain xs)

unshifted-shifted : (xs : Bytes) → unshifted (shifted xs) ≡ xs
unshifted-shifted [] = refl
unshifted-shifted (x ∷ xs) = ap2 x (unshifted-shifted xs)
  where
    ap2 :
        (x : ℕ) {ys : Bytes}
        → unshifted (shifted xs) ≡ ys
        → (x + 64 - 64) ∷ unshifted (shifted xs) ≡ x ∷ ys
    ap2 x e = grind arith

length-replicate : (n x : ℕ) → length (replicate n x) ≡ n
length-replicate zero x = refl
length-replicate (suc n) x = ap suc (length-replicate n x)

toy-Standard : Standard toy
toy-Standard = record {
  base64-IsPlain = shifted-IsPlain;
  base64_decoded = λ xs. ap some (unshifted-shifted xs);
  argon2_length = λ password salt t m p n. length-replicate n _;
}

names : List Bool
unfolding valid_username
names = map valid_username ("op" ∷ "operator_1" ∷ "oper ator" ∷ [])

names_checked : names ≡ false ∷ true ∷ false ∷ []
unfolding names valid_username
names_checked = refl

passwords_checked :
    map valid_password ("short1A!" ∷ "alllowercaseletters" ∷ "Correct-horse-7" ∷ [])
    ≡ false ∷ false ∷ true ∷ []
unfolding valid_password
passwords_checked = refl

costs_read : scan_costs (utf8 "m=65536,t=3,p=256") ≡ none
unfolding scan_costs utf8
costs_read = refl

step_bytes : big_endian 8 258 ≡ 0 ∷ 0 ∷ 0 ∷ 0 ∷ 0 ∷ 0 ∷ 1 ∷ 2 ∷ []
unfolding big_endian
step_bytes = refl

padded : six_digits 4021 ≡ utf8 "004021"
unfolding six_digits utf8
padded = refl

verify-hash_password_example :
    (h : Bytes) × (hash_password toy "Correct-horse-7" (ok (1 ∷ 2 ∷ [])) ≡ ok h)
    × (verify_password toy h "Correct-horse-8"
        ≡ same_bytes
            (toy.argon2 (utf8 "Correct-horse-8") (1 ∷ 2 ∷ []) 3 memory_cost 2 32)
            (toy.argon2 (utf8 "Correct-horse-7") (1 ∷ 2 ∷ []) 3 memory_cost 2 32))
verify-hash_password_example =
    verify-hash_password toy toy-Standard "Correct-horse-7" "Correct-horse-8" (1 ∷ 2 ∷ [])

abbrev secret : Bytes
secret = 50 ∷ 51 ∷ []

-- A code read at noon is still good 25 seconds later.
abbrev pub noon : ℕ
noon = unix_epoch + 20000 * minute

noon_code : utf8 (trim_space " 076680 ") ≡ totp toy secret noon
unfolding totp utf8 trim_space
noon_code = refl

validate_totp_near_example : validate_totp toy secret " 076680 " (noon + 25 * second) ≡ true
validate_totp_near_example =
    validate_totp_near toy secret secret " 076680 " noon (noon + 25 * second) refl noon_code
      (omega arith) (omega arith) (omega arith) (omega arith)

-- Two minutes later it is not.
too_late : validate_totp toy secret "076680" (noon + 2 * minute) ≡ false
unfolding validate_totp
too_late = refl
