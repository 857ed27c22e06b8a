-- ===== src/ActionBroker/Verify.antt =====
-- internal/actionbroker/actionbroker.go: the check of a signed request, `Verify`, which ends in the
-- memory of nonces. The digests and the encoding are those of Go's crypto and encoding packages.
use collator.Prelude.{
  ℕ, zero, suc, ◌+◌, ◌-◌, ◌*◌, ℤ, pos, negsuc, add64, two63, Time, second, before, after, List, [],
  ◌∷◌, ◌++◌, length, Bool, false, not, ◌&&◌, ◌||◌, ltb, leb, ◌==◌, if◌then◌else◌, Option, none,
  some, String, ◌=?◌, codes, utf8, trim_space,
}
use collator.Model.{plain, Result, ok, err}
use collator.Auth.{Bytes, same_bytes}
use collator.ActionBroker.{Verifier, remember}

pub record Codecs : Type 0 where
  pub sha256 : Bytes → Bytes
  pub hmac_sha256 : Bytes → Bytes → Bytes
  pub base64_url : Bytes → String
  pub base64_url_decode : String → Option Bytes

-- The three headers.
pub record Header : Type 0 where
  pub timestamp : String
  pub nonce : String
  pub signature : String

-- A request as it arrives, with the clock's time then.
pub record Call : Type 0 where
  pub header : Header
  pub body : Bytes
  pub now : Time

-- `strconv.ParseInt(s, 10, 64)`: a sign or none, one digit at least, and a value of 64 bits.
unfoldable pub digits_of : ℕ → List ℕ → Option ℕ
digits_of n [] = some n
digits_of n (x ∷ s) =
    let more = digits_of (n * 10 + (x - 48)) s in if leb 48 x && leb x 57 then more else none

unfoldable pub number_of : List ℕ → Option ℕ
unfolding digits_of
number_of [] = none
number_of (x ∷ s) = digits_of 0 (x ∷ s)

abbrev positive : Option ℕ → Option ℤ
positive none = none
positive (some n) = if ltb n two63 then some (pos n) else none

abbrev negative : Option ℕ → Option ℤ
negative none = none
negative (some zero) = some (pos 0)
negative (some (suc n)) = if ltb n two63 then some (negsuc n) else none

abbrev signed : List ℕ → Option ℤ
signed [] = none
signed (x ∷ s) =
    if x == b'-'
    then negative (number_of s)
    else (if x == b'+' then positive (number_of s) else positive (number_of (x ∷ s)))

unfoldable pub parse_int : String → Option ℤ
unfolding codes number_of
parse_int s = signed (codes s)

-- `message`
unfoldable pub message : Codecs → String → String → Bytes → Bytes
unfolding utf8
message c timestamp nonce body =
    utf8 timestamp
    ++ (utf8 "\n" ++ (utf8 nonce ++ (utf8 "\n" ++ utf8 (c.base64_url (c.sha256 body)))))

-- `Sign`
unfoldable pub sign : Codecs → Bytes → String → String → Bytes → String
unfolding message
sign c key timestamp nonce body = c.base64_url (c.hmac_sha256 key (message c timestamp nonce body))

abbrev pub max_skew : ℕ
max_skew = 30 * second

-- `time.Unix(unix, 0)`, in seconds since the year 1; like Go's, it wraps to 64 bits.
abbrev pub issued_at : ℤ → ℤ
issued_at unix = add64 unix (pos 62135596800)

-- Whether the seconds are more than `max_skew` from the clock.
unfoldable pub is_expired : Time → ℤ → Bool
is_expired now (pos s) = before (s * second + max_skew) now || after (s * second) (now + max_skew)
is_expired now (negsuc s) = ltb max_skew (now + suc s * second)

abbrev is_sixteen_bytes : Option Bytes → Bool
is_sixteen_bytes none = false
is_sixteen_bytes (some raw) = length raw == 16

abbrev has_signature : Option Bytes → Option Bytes → Bool
has_signature none expected = false
has_signature (some provided) none = same_bytes provided []
has_signature (some provided) (some expected) = same_bytes provided expected

-- `Verify` up to the memory, on the headers without spaces around them and the parsed time.
unfoldable pub check_parts : Codecs → Bytes → Header → Option ℤ → Bytes → Time → Result (Unit {0})
unfolding sign is_expired same_bytes
check_parts c key h none body now = err (plain "missing or invalid broker authentication")
check_parts c key h (some unix) body now =
    if h.nonce =? "" || h.signature =? ""
    then err (plain "missing or invalid broker authentication")
    else (if not (is_sixteen_bytes (c.base64_url_decode h.nonce))
        then err (plain "invalid broker nonce")
        else (if is_expired now (issued_at unix)
            then err (plain "expired broker request")
            else (if not (
                  has_signature (c.base64_url_decode h.signature)
                    (c.base64_url_decode (sign c key h.timestamp h.nonce body)))
                then err (plain "invalid broker signature")
                else ok tt)))

unfoldable pub trimmed : Header → Header
unfolding trim_space
trimmed h = record {
  timestamp = trim_space h.timestamp;
  nonce = trim_space h.nonce;
  signature = trim_space h.signature;
}

unfoldable pub check_call : Codecs → Bytes → Call → Result (Unit {0})
unfolding check_parts parse_int trimmed
check_call c key x =
    let h = trimmed x.header in check_parts c key h (parse_int h.timestamp) x.body x.now

unfoldable pub remembered :
    Result (Unit {0}) → String → Time → Verifier → Result (Unit {0}) × Verifier
unfolding remember
remembered (err e) nonce now v = (err e, v)
remembered (ok u) nonce now v =
    let (w, is_new) = remember nonce now v in
    (if is_new then ok tt else err (plain "replayed broker request"), w)

-- `Verify`
unfoldable pub verify : Codecs → Bytes → Call → Verifier → Result (Unit {0}) × Verifier
unfolding check_call trimmed remembered
verify c key x v = remembered (check_call c key x) (trimmed x.header).nonce x.now v
