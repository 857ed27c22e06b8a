-- ===== src/Auth/Password.antt =====
-- internal/auth/auth.go: the text that a password is kept as, written and read.
use collator.Prelude.{
  ℕ, ◌+◌, ◌-◌, ◌*◌, ◌^◌, List, [], ◌∷◌, ◌++◌, length, Bool, false, not, ◌&&◌, ◌||◌, leb, ◌==◌,
  if◌then◌else◌, Option, none, some, String, utf8,
}
use collator.Model.{Result, ok, ◌>>=◌}
use collator.Auth.{Bytes, Crypto, Random, same_bytes}

abbrev pub memory_cost : ℕ
memory_cost = 65536

-- `HashPassword`, with the salt that it draws.
unfoldable pub hash_password : Crypto → String → Random → Result Bytes
unfolding utf8
hash_password c password drawn = do
  salt ← drawn
  let hash = c.argon2 (utf8 password) salt 3 memory_cost 2 32
  ok (utf8 "$argon2id$v=19$m=65536,t=3,p=2$" ++ (c.base64 salt ++ (utf8 "$" ++ c.base64 hash)))

-- `strings.Split(s, "$")`: the part before the next sign, and the parts after it.
unfoldable pub split : Bytes → Bytes × List Bytes
split [] = ([], [])
split (x ∷ s) =
    let (part, parts) = split s in if x == b'$' then ([], part ∷ parts) else (x ∷ part, parts)

-- What `fmt.Sscanf` does: `%d` skips spaces and takes the digits that follow, of which there must be
-- some, for a number of the variable's width; a character of the format must come next.
abbrev is_blank : ℕ → Bool
is_blank c = c == 32 || (c == 9 || (c == 11 || (c == 12 || c == 13)))

unfoldable pub skip_blanks : Bytes → Bytes
skip_blanks [] = []
skip_blanks (x ∷ s) = let rest = skip_blanks s in if is_blank x then rest else x ∷ s

abbrev is_digit : ℕ → Bool
is_digit c = leb 48 c && leb c 57

unfoldable pub scan_digits : ℕ → Bytes → ℕ × Bytes
scan_digits n [] = (n, [])
scan_digits n (x ∷ s) =
    let more = scan_digits (n * 10 + (x - 48)) s in if is_digit x then more else (n, x ∷ s)

abbrev starts_with_digit : Bytes → Bool
starts_with_digit [] = false
starts_with_digit (x ∷ s) = is_digit x

unfoldable pub scan_number : ℕ → Bytes → Option (ℕ × Bytes)
unfolding scan_digits skip_blanks
scan_number width s =
    let t = skip_blanks s in
    let (n, rest) = scan_digits 0 t in
    if not (starts_with_digit t) || leb (2 ^ width) n then none else some (n, rest)

unfoldable pub expect : Bytes → Bytes → Option Bytes
expect [] s = some s
expect (p ∷ ps) [] = none
expect (p ∷ ps) (x ∷ s) = if p == x then expect ps s else none

infixl 5 ◌then◌
abbrev ◌then◌ {ℓ κ} : {A : Type ℓ} {B : Type κ} → Option A → (A → Option B) → Option B
none then f = none
some a then f = f a

-- `fmt.Sscanf(s, "m=%d,t=%d,p=%d", &memory, &iterations, &parallelism)`
unfoldable pub scan_costs : Bytes → Option (ℕ × ℕ × ℕ)
unfolding scan_number expect utf8
scan_costs s = expect (utf8 "m=") s then (λ s1. scan_number 32 s1 then (λ (memory, s2).
    expect (utf8 ",t=") s2 then (λ s3. scan_number 32 s3 then (λ (iterations, s4).
      expect (utf8 ",p=") s4 then (λ s5.
        scan_number 8 s5 then (λ (parallelism, s6). some (memory, iterations, parallelism)))))))

-- The end of `VerifyPassword`, on the parts after the costs.
unfoldable pub verify_decoded :
    Crypto → String → Option (ℕ × ℕ × ℕ) → Option Bytes → Option Bytes → Bool
unfolding same_bytes utf8
verify_decoded c password (some (memory, iterations, parallelism)) (some salt) (some expected) =
    same_bytes (c.argon2 (utf8 password) salt iterations memory parallelism (length expected))
      expected
verify_decoded c password none salt expected = false
verify_decoded c password (some costs) none expected = false
verify_decoded c password (some costs) (some salt) none = false

unfoldable pub verify_parts : Crypto → String → List Bytes → Bool
unfolding scan_costs verify_decoded same_bytes utf8
verify_parts c password (p0 ∷ p1 ∷ p2 ∷ p3 ∷ p4 ∷ p5 ∷ []) =
    if same_bytes p1 (utf8 "argon2id")
    then verify_decoded c password (scan_costs p3) (c.base64_decode p4) (c.base64_decode p5)
    else false
verify_parts c password other = false

-- `VerifyPassword`
unfoldable pub verify_password : Crypto → Bytes → String → Bool
unfolding split verify_parts
verify_password c encoded password =
    let (part, parts) = split encoded in verify_parts c password (part ∷ parts)
