-- ===== src/Auth.antt =====
-- internal/auth/auth.go: tokens, secrets, passwords, one-time codes and recovery codes. The hashes,
-- ciphers and encodings that it calls are given: those of Go's crypto and encoding packages and
-- golang.org/x/crypto/argon2. What `rand.Read` fills in is a parameter of each function that draws.
pub mod Password
pub mod Totp
pub mod Policy
pub mod Roundtrip
pub mod Window
pub mod Examples
use collator.Prelude.{
  ℕ, zero, suc, List, [], ◌∷◌, ◌++◌, length, take, drop, Bool, true, false, not, ◌&&◌, ltb, ◌==◌,
  if◌then◌else◌, Option, none, some, String, codes, utf8, has_prefix, trim_space,
}
use collator.Model.{Error, plain, Result, ok, err, ◌>>=◌, ◌>>◌, reject}

abbrev pub Bytes : Type 0
Bytes = List ℕ

-- `hmac_sha1 key message i` is the byte at `i` of the 20 bytes of the code; `seal` and `unseal` are
-- AES-GCM with its additional data.
pub record Crypto : Type 0 where
  pub sha256 : Bytes → Bytes
  pub hmac_sha1 : Bytes → Bytes → ℕ → ℕ
  pub argon2 : Bytes → Bytes → ℕ → ℕ → ℕ → ℕ → Bytes
  pub seal : Bytes → Bytes → Bytes → Bytes → Bytes
  pub unseal : Bytes → Bytes → Bytes → Bytes → Option Bytes
  pub base64 : Bytes → Bytes
  pub base64_decode : Bytes → Option Bytes
  pub base64_padded_decode : Bytes → Option Bytes
  pub base64_url : Bytes → String
  pub base64_url_decode : Bytes → Option Bytes
  pub base32 : Bytes → Bytes
  pub base32_decode : Bytes → Option Bytes

-- `subtle.ConstantTimeCompare`
unfoldable pub same_bytes : Bytes → Bytes → Bool
same_bytes [] [] = true
same_bytes [] (y ∷ ys) = false
same_bytes (x ∷ xs) [] = false
same_bytes (x ∷ xs) (y ∷ ys) = x == y && same_bytes xs ys

-- What a call that draws bytes gets from `rand.Read`.
abbrev pub Random : Type 0
Random = Result Bytes

-- `RandomToken`
unfoldable pub random_token : Crypto → Random → Result String
random_token c drawn = drawn >>= λ raw. ok (c.base64_url raw)

-- `HashToken`
unfoldable pub hash_token : Crypto → String → String
unfolding utf8
hash_token c token = c.base64_url (c.sha256 (utf8 token))

abbrev first_of : Option Bytes → Option Bytes → Option Bytes
first_of none second = second
first_of (some key) second = some key

abbrev bad_key : Error
bad_key = plain "encryption key must be a base64-encoded 32-byte value"

abbrev key_of : Option Bytes → Result Bytes
key_of none = err bad_key
key_of (some key) = if length key == 32 then ok key else err bad_key

-- `encryptionKey`
unfoldable pub encryption_key : Crypto → String → Result Bytes
unfolding utf8 trim_space
encryption_key c value =
    let text = utf8 (trim_space value) in
    key_of (first_of (c.base64_padded_decode text) (c.base64_decode text))

-- What `gcm.NonceSize()` is.
abbrev pub nonce_size : ℕ
nonce_size = 12

unfoldable pub secret_context : Bytes
unfolding utf8
secret_context = utf8 "shiden-guardian:totp:v1"

-- `EncryptSecret`, on texts as their bytes.
unfoldable pub encrypt_secret : Crypto → String → Bytes → Random → Result Bytes
unfolding encryption_key secret_context utf8
encrypt_secret c key_value plaintext drawn = do
  key ← encryption_key c key_value
  nonce ← drawn
  ok (utf8 "v1:" ++ utf8 (c.base64_url (nonce ++ c.seal key nonce plaintext secret_context)))

abbrev or_fail {ℓ} : {A : Type ℓ} → Option A → String → Result A
or_fail none why = err (plain why)
or_fail (some a) why = ok a

-- `DecryptSecret`
unfoldable pub decrypt_secret : Crypto → String → Bytes → Result Bytes
unfolding encryption_key secret_context utf8 has_prefix
decrypt_secret c key_value encoded = do
  reject (not (has_prefix (utf8 "v1:") encoded)) (plain "unsupported encrypted secret format")
  key ← encryption_key c key_value
  raw ← or_fail (c.base64_url_decode (drop 3 encoded)) "illegal base64 data"
  reject (ltb (length raw) nonce_size) (plain "encrypted secret is truncated")
  or_fail (c.unseal key (take nonce_size raw) (drop nonce_size raw) secret_context)
      "message authentication failed"
