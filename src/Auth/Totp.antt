-- ===== src/Auth/Totp.antt =====
-- internal/auth/auth.go: one-time codes, and the recovery codes that stand in for them. The clock
-- stands half a minute past Unix's epoch or later.
use collator.Prelude.{
  ℕ, zero, suc, ◌+◌, ◌-◌, ◌*◌, ◌/◌, ◌%◌, ◌^◌, Time, second, List, [], ◌∷◌, ◌++◌, map, length, Bool,
  false, not, ◌&&◌, ◌||◌, leb, ◌==◌, if◌then◌else◌, Option, none, some, String, utf8, trim_space,
  to_upper,
}
use collator.Model.{Result, ok, ◌>>=◌}
use collator.Auth.{Bytes, Crypto, Random, same_bytes, random_token, hash_token}

-- `strings.ToUpper` of a text in ASCII.
abbrev pub upper : Bytes → Bytes
upper = map (λ c. if leb b'a' c && leb c b'z' then c - 32 else c)

-- The `n` low bytes of a counter, the lowest one last.
unfoldable pub big_endian : ℕ → ℕ → Bytes
big_endian zero counter = []
big_endian (suc n) counter = big_endian n (counter / 256) ++ (counter % 256) ∷ []

-- `fmt.Sprintf("%06d", n)` of a number below a million.
unfoldable pub six_digits : ℕ → Bytes
six_digits n =
    (48 + n / 100000 % 10)
    ∷ (48 + n / 10000 % 10)
    ∷ (48 + n / 1000 % 10)
    ∷ (48 + n / 100 % 10)
    ∷ (48 + n / 10 % 10)
    ∷ (48 + n % 10)
    ∷ []

-- The four bytes at the offset that the last byte gives, without the highest bit.
unfoldable pub truncated : (ℕ → ℕ) → ℕ
truncated sum =
    let off = sum 19 % 16 in
    sum off % 128 * 2 ^ 24 + sum (off + 1) * 2 ^ 16 + sum (off + 2) * 2 ^ 8 + sum (off + 3)

-- Seconds since 1970, of a time since the year 1.
abbrev pub unix_epoch : Time
unix_epoch = 62135596800 * second

abbrev pub unix : Time → ℕ
unix t = (t - unix_epoch) / second

unfoldable pub code_for : Crypto → Time → Option Bytes → Bytes
unfolding six_digits truncated big_endian
code_for c now none = []
code_for c now (some key) =
    six_digits (truncated (c.hmac_sha1 key (big_endian 8 (unix now / 30))) % 1000000)

-- `totp`
unfoldable pub totp : Crypto → Bytes → Time → Bytes
unfolding code_for six_digits truncated big_endian
totp c secret now = code_for c now (c.base32_decode (upper secret))

-- `ValidateTOTP`
unfoldable pub validate_totp : Crypto → Bytes → String → Time → Bool
unfolding totp same_bytes utf8 trim_space
validate_totp c secret code now =
    let given = utf8 (trim_space code) in
    if not (length given == 6)
    then false
    else same_bytes (totp c secret (now - 30 * second)) given
      || (same_bytes (totp c secret now) given
          || same_bytes (totp c secret (now + 30 * second)) given)

-- `GenerateTOTPSecret`
unfoldable pub generate_totp_secret : Crypto → Random → Result Bytes
generate_totp_secret c drawn = drawn >>= λ raw. ok (c.base32 raw)

-- `TOTPURI`, with the account's name in its place.
unfoldable pub totp_uri : Bytes → String → Bytes
unfolding utf8
totp_uri secret account =
    utf8 "otpauth://totp/Shiden%20Guardian:"
    ++ (utf8 account
        ++ (utf8 "?secret="
            ++ (secret ++ utf8 "&issuer=Shiden%20Guardian&algorithm=SHA1&digits=6&period=30")))

abbrev take_text : ℕ → String → String
take_text zero s = ""
take_text (suc n) String.[] = ""
take_text (suc n) (String.◌∷◌ x s) = String.◌∷◌ x (take_text n s)

-- `RecoveryCodes`, with what each round draws: the codes and their hashes.
unfoldable pub recovery_codes : Crypto → List Random → Result (List String × List String)
unfolding random_token hash_token to_upper
recovery_codes c [] = ok ([], [])
recovery_codes c (drawn ∷ draws) = do
  token ← random_token c drawn
  (plain, hashes) ← recovery_codes c draws
  let code = to_upper (take_text 10 token)
  ok (code ∷ plain, hash_token c code ∷ hashes)
