-- ===== src/Reward/Monitor/Calls.antt =====
-- The calls of the RPC that the monitor makes, each with its checks, and the monad of such calls.
use collator.Prelude.{
  ℕ, zero, suc, ◌+◌, ◌-◌, ◌*◌, ℤ, pos, negsuc, two63, List, [], ◌∷◌, Bool, true, false, leb, ltb,
  ◌==◌, ◌&&◌, if◌then◌else◌, Option, none, some, String, ◌=?◌, ◌≡◌, refl,
}
use collator.Model.{Error, plain, Result, ok, err, Returns}
use collator.Reward.Address.Hex.{hex_value, hex_decode}

-- The methods of the node, by the part of their answers that the source decodes.
pub record Rpc (W : Type 0) : Type 0 where
  pub finalized_head : W → Result String × W
  pub chain_block_hash : ℤ → W → Result String × W
  pub header_number : String → W → Result (List ℕ) × W
  pub spec_version : String → W → Result (List ℕ) × W
  pub get_storage : List ℕ → String → W → Result (Option (List ℕ)) × W

abbrev pub M : Type 0 → Type 0 → Type 0
M W A = W → Result A × W

module _ {W : Type 0} where
  abbrev pub go_on : {A B : Type 0} → Result A → W → (A → M W B) → Result B × W
  go_on (ok a) w f = f a w
  go_on (err e) w f = (err e, w)

  infixl 5 ◌>>=◌ ◌>>◌
  abbrev pub ◌>>=◌ : {A B : Type 0} → M W A → (A → M W B) → M W B
  ◌>>=◌ m f w = go_on (m w).0 (m w).1 f

  abbrev pub ◌>>◌ : {B : Type 0} → M W (Unit {0}) → M W B → M W B
  m >> k = m >>= λ _. k

  abbrev pub lift : {A : Type 0} → Result A → M W A
  lift r w = (r, w)

  abbrev pub pure : {A : Type 0} → A → M W A
  pure a w = (ok a, w)

  -- A failure that the caller looks at.
  abbrev pub attempt : {A : Type 0} → M W A → M W (Result A)
  attempt m w = (ok (m w).0, (m w).1)

  abbrev pub reject_call : Bool → Error → M W (Unit {0})
  reject_call true e w = (err e, w)
  reject_call false e w = (ok tt, w)

  -- What a call returns.
  abbrev pub answer : {A : Type 0} → M W A → W → Result A
  answer m w = (m w).0

  -- A property of what is returned need only be kept by the calls that follow.
  go_on-Returns :
      {A B : Type 0} (P : B → Type 0) (r : Result A) (w : W) (f : A → M W B)
      → ((a : A) (v : W) → Returns P (answer (f a) v))
      → Returns P (go_on r w f).0
  go_on-Returns P (ok a) w f h = h a w
  go_on-Returns P (err e) w f h = tt

  pub bind-Returns :
      {A B : Type 0} (P : B → Type 0) (m : M W A) (f : A → M W B) (w : W)
      → ((a : A) (v : W) → Returns P (answer (f a) v))
      → Returns P (answer (m >>= f) w)
  bind-Returns P m f w h = go_on-Returns P (m w).0 (m w).1 f h

  -- The same, with what is known of the first call.
  go_on-Returns_of :
      {A B : Type 0} (Q : A → Type 0) (P : B → Type 0) (r : Result A) (w : W) (f : A → M W B)
      → Returns Q r
      → ((a : A) (v : W) → Q a → Returns P (answer (f a) v))
      → Returns P (go_on r w f).0
  go_on-Returns_of Q P (ok a) w f q h = h a w q
  go_on-Returns_of Q P (err e) w f q h = tt

  pub bind-Returns_of :
      {A B : Type 0} (Q : A → Type 0) (P : B → Type 0) (m : M W A) (f : A → M W B) (w : W)
      → Returns Q (answer m w)
      → ((a : A) (v : W) → Q a → Returns P (answer (f a) v))
      → Returns P (answer (m >>= f) w)
  bind-Returns_of Q P m f w q h = go_on-Returns_of Q P (m w).0 (m w).1 f q h

module _ {W : Type 0} where
  go_on-ok :
      {A B : Type 0} (r : Result A) (w : W) (f : A → M W B) {a : A}
      → r ≡ ok a
      → (go_on r w f).0 ≡ answer (f a) w
  go_on-ok r w f e = rw e

  -- The answer after a call whose answer is known.
  pub bind-ok :
      {A B : Type 0} (m : M W A) (f : A → M W B) (w : W) {a : A}
      → answer m w ≡ ok a
      → answer (m >>= f) w ≡ answer (f a) (m w).1
  bind-ok m f w e = go_on-ok (m w).0 (m w).1 f e

  -- A call that is refused on a test goes on only where the test fails.
  pub reject-Returns :
      {B : Type 0} (P : B → Type 0) (b : Bool) (e : Error) (k : M W B) (w : W)
      → (b ≡ false → Returns P (answer k w))
      → Returns P (answer (reject_call b e >> k) w)
  reject-Returns P true e k w h = tt
  reject-Returns P false e k w h = h refl

-- strconv.ParseInt(text, base, 64): the value, and whether there was no error. A number out of
-- range gives the nearest int64.
abbrev digit_value : ℕ → ℕ → Option ℕ
digit_value base c =
    if base == 16 then hex_value c else (if leb 48 c && leb c 57 then some (c - 48) else none)

parse_digits : ℕ → ℕ → List ℕ → Option ℕ
parse_digits base n [] = some n
parse_digits base n (c ∷ cs) = elim (digit_value base c) [
  | none ↦ none
  | some d ↦ parse_digits base (n * base + d) cs
]

unsigned : ℕ → List ℕ → Option ℕ
unfolding parse_digits
unsigned base [] = none
unsigned base (c ∷ cs) = parse_digits base 0 (c ∷ cs)

abbrev positive : Option ℕ → ℤ × Bool
positive none = (pos 0, false)
positive (some n) = if ltb n two63 then (pos n, true) else (pos (two63 - 1), false)

abbrev negative : Option ℕ → ℤ × Bool
negative none = (pos 0, false)
negative (some zero) = (pos 0, true)
negative (some (suc n)) = if ltb n two63 then (negsuc n, true) else (negsuc (two63 - 1), false)

unfoldable pub parse_int : ℕ → List ℕ → ℤ × Bool
unfolding unsigned
parse_int base [] = (pos 0, false)
parse_int base (c ∷ cs) =
    if c == b'-'
    then negative (unsigned base cs)
    else (if c == b'+' then positive (unsigned base cs) else positive (unsigned base (c ∷ cs)))

abbrev number_or_fail : ℤ × Bool → Error → Result ℤ
number_or_fail (n, true) e = ok n
number_or_fail (n, false) e = err e

-- `strings.TrimPrefix(text, "0x")`
abbrev trim_0x : List ℕ → List ℕ
trim_0x [] = []
trim_0x (c ∷ []) = c ∷ []
trim_0x (c ∷ d ∷ cs) = if c == b'0' && d == b'x' then cs else c ∷ d ∷ cs

abbrev decode_hex : Option (List ℕ) → Result (List ℕ)
decode_hex none = err (plain "encoding/hex")
decode_hex (some bs) = ok bs

module _ {W : Type 0} (rpc : Rpc W) where
  unfoldable pub block_hash : ℤ → M W String
  block_hash block = do
    hash ← rpc.chain_block_hash block
    reject_call (hash =? "") (plain "block hash unavailable")
    pure hash

  unfoldable pub header : String → M W ℤ
  unfolding parse_int
  header hash = do
    number ← rpc.header_number hash
    lift (number_or_fail (parse_int 16 (trim_0x number)) (plain "strconv.ParseInt"))

  unfoldable pub runtime_version : String → M W ℤ
  unfolding parse_int
  runtime_version hash = do
    version ← rpc.spec_version hash
    lift (number_or_fail (parse_int 10 version) (plain "invalid runtime spec"))

  unfoldable pub storage : List ℕ → String → M W (List ℕ)
  unfolding hex_decode
  storage key hash = do
    value ← rpc.get_storage key hash
    elim value [
      | none ↦ lift (err (plain "storage unavailable"))
      | some [] ↦ lift (err (plain "storage unavailable"))
      | some (c ∷ cs) ↦ lift (decode_hex (hex_decode (trim_0x (c ∷ cs))))
    ]
