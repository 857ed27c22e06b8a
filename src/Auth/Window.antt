-- ===== src/Auth/Window.antt =====
-- When `ValidateTOTP` accepts a code.
use collator.Prelude.{
  suc, ◌+◌, ◌-◌, ◌*◌, ◌/◌, ◌≤◌, Time, second, [], ◌∷◌, length, Bool, true, ◌||◌, Option, none, some,
  String, utf8, trim_space, ◌≡◌, ◌⊎◌, inl, inr, refl, ap, ◌∙◌, arith,
}
use collator.Auth.{Bytes, Crypto, same_bytes}
use collator.Auth.Totp.{upper, six_digits, code_for, unix_epoch, unix, totp, validate_totp}

pub same_bytes_self : (s : Bytes) → same_bytes s s ≡ true
unfolding same_bytes
same_bytes_self [] = refl
same_bytes_self (x ∷ s) = ground (arith, same_bytes_self s)

pub same_bytes-eq : (s t : Bytes) → same_bytes s t ≡ true → s ≡ t
unfolding same_bytes
same_bytes-eq [] [] h = refl
same_bytes-eq [] (y ∷ t) h = cc
same_bytes-eq (x ∷ s) [] h = cc
same_bytes-eq (x ∷ s) (y ∷ t) h = ground (arith, same_bytes-eq s t)

-- The steps of the clock of two times at most half a minute apart differ by at most one.
unix_step : (t : Time) → unix_epoch ≤ t → unix (t + 30 * second) / 30 ≡ suc (unix t / 30)
unix_step t h = omega arith

near :
    (t u : Time)
    → unix_epoch + 30 * second ≤ u
    → unix_epoch ≤ t
    → t ≤ u + 30 * second
    → u ≤ t + 30 * second
    → (unix t / 30 ≡ unix (u - 30 * second) / 30)
      ⊎ ((unix t / 30 ≡ unix u / 30) ⊎ (unix t / 30 ≡ unix (u + 30 * second) / 30))
near t u h k p q = ground arith

-- A code depends on the step only.
code_for_step :
    (c : Crypto) (t u : Time) (key : Option Bytes)
    → unix t / 30 ≡ unix u / 30
    → code_for c t key ≡ code_for c u key
unfolding code_for
code_for_step c t u none h = refl
code_for_step c t u (some key) h = rw h refl

totp_step :
    (c : Crypto) (secret : Bytes) (t u : Time)
    → unix t / 30 ≡ unix u / 30
    → totp c secret t ≡ totp c secret u
unfolding totp
totp_step c secret t u h = code_for_step c t u (c.base32_decode (upper secret)) h

length-code_for :
    (c : Crypto) (t : Time) (key : Option Bytes) {k : Bytes}
    → key ≡ some k
    → length (code_for c t key) ≡ 6
unfolding code_for six_digits
length-code_for c t none h = cc
length-code_for c t (some key) h = refl

-- What the three comparisons accept.
compared : (c : Crypto) (secret given : Bytes) (now : Time) → Bool
compared c secret given now =
    same_bytes (totp c secret (now - 30 * second)) given
    || (same_bytes (totp c secret now) given
        || same_bytes (totp c secret (now + 30 * second)) given)

compared_one :
    (a b d given : Bytes)
    → (given ≡ a) ⊎ ((given ≡ b) ⊎ (given ≡ d))
    → (same_bytes a given || (same_bytes b given || same_bytes d given)) ≡ true
compared_one a b d given (inl e) = rw (e, same_bytes_self a) refl
compared_one a b d given (inr (inl e)) = rw (e, same_bytes_self b) (ground arith)
compared_one a b d given (inr (inr e)) = rw (e, same_bytes_self d) (ground arith)

near_codes :
    (c : Crypto) (secret given : Bytes) (t u : Time)
    → given ≡ totp c secret t
    → (unix t / 30 ≡ unix (u - 30 * second) / 30)
      ⊎ ((unix t / 30 ≡ unix u / 30) ⊎ (unix t / 30 ≡ unix (u + 30 * second) / 30))
    → (given ≡ totp c secret (u - 30 * second))
      ⊎ ((given ≡ totp c secret u) ⊎ (given ≡ totp c secret (u + 30 * second)))
near_codes c secret given t u e (inl h) = inl (e ∙ totp_step c secret t _ h)
near_codes c secret given t u e (inr (inl h)) = inr (inl (e ∙ totp_step c secret t _ h))
near_codes c secret given t u e (inr (inr h)) = inr (inr (e ∙ totp_step c secret t _ h))

-- The code that belongs to a time is accepted half a minute before it and half a minute after it,
-- where the secret decodes and the clock stands half a minute past Unix's epoch or later.
pub validate_totp_near :
    (c : Crypto) (secret key : Bytes) (code : String) (t u : Time)
    → c.base32_decode (upper secret) ≡ some key
    → utf8 (trim_space code) ≡ totp c secret t
    → unix_epoch + 30 * second ≤ u
    → unix_epoch ≤ t
    → t ≤ u + 30 * second
    → u ≤ t + 30 * second
    → validate_totp c secret code u ≡ true
unfolding validate_totp totp
validate_totp_near c secret key code t u dec e hu ht p q =
    let six : length (utf8 (trim_space code)) ≡ 6 =
      ap length e ∙ length-code_for c t (c.base32_decode (upper secret)) dec in
    rw six (
      compared_one _ _ _ _
        (near_codes c secret (utf8 (trim_space code)) t u e (near t u hu ht p q)))
