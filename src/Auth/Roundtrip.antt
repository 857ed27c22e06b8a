-- ===== src/Auth/Roundtrip.antt =====
-- What `HashPassword` writes is what `VerifyPassword` reads.
use collator.Prelude.{
  ℕ, List, [], ◌∷◌, ◌++◌, All, length, false, ◌==◌, Option, some, String, utf8, ◌≡◌, refl, ◌∙◌,
  arith,
}
use collator.Model.{ok}
use collator.Auth.{Bytes, Crypto, same_bytes}
use collator.Auth.Password.{
  memory_cost, hash_password, split, scan_costs, verify_decoded, verify_parts, verify_password,
}

abbrev pub IsPlain : Bytes → Type 0
IsPlain = All (λ x. (x == b'$') ≡ false)

-- What base64 and Argon2 do: an encoding is read back and has no `$`, and a key has the length that
-- was asked for.
pub record Standard (c : Crypto) : Type 0 where
  pub base64-IsPlain : (xs : Bytes) → IsPlain (c.base64 xs)
  pub base64_decoded : (xs : Bytes) → c.base64_decode (c.base64 xs) ≡ some xs
  pub argon2_length :
      (password salt : Bytes) (t m p n : ℕ) → length (c.argon2 password salt t m p n) ≡ n

split-plain : (s : Bytes) → IsPlain s → split s ≡ (s, [])
unfolding split
split-plain [] h = refl
split-plain (x ∷ s) h = rw (split-plain s h.1, h.0) refl

split-append : (s t : Bytes) → IsPlain s → split (s ++ b'$' ∷ t) ≡ (s, (split t).0 ∷ (split t).1)
unfolding split
split-append [] t h = refl
split-append (x ∷ s) t h = rw (split-append s t h.1, h.0) refl

-- Five fields, each after a sign.
split-fields :
    (a v m s h : Bytes)
    → IsPlain a
    → IsPlain v
    → IsPlain m
    → IsPlain s
    → IsPlain h
    → split (b'$' ∷ (a ++ b'$' ∷ (v ++ b'$' ∷ (m ++ b'$' ∷ (s ++ b'$' ∷ h)))))
      ≡ ([], a ∷ v ∷ m ∷ s ∷ h ∷ [])
unfolding split
split-fields a v m s h ha hv hm hs hh =
    rw
      (
        split-append a (v ++ b'$' ∷ (m ++ b'$' ∷ (s ++ b'$' ∷ h))) ha,
        split-append v (m ++ b'$' ∷ (s ++ b'$' ∷ h)) hv,
        split-append m (s ++ b'$' ∷ h) hm,
        split-append s h hs,
        split-plain h hh,
      )
      refl

abbrev cost_text : Bytes
unfolding utf8
cost_text = utf8 "m=65536,t=3,p=2"

scan_costs_written : scan_costs cost_text ≡ some (memory_cost, 3, 2)
unfolding scan_costs utf8 cost_text
scan_costs_written = refl

-- The text that `HashPassword` writes has the fields that `VerifyPassword` looks for.
split-written :
    (salt hash : Bytes)
    → IsPlain salt
    → IsPlain hash
    → split (utf8 "$argon2id$v=19$m=65536,t=3,p=2$" ++ (salt ++ (utf8 "$" ++ hash)))
      ≡ ([], utf8 "argon2id" ∷ utf8 "v=19" ∷ cost_text ∷ salt ∷ hash ∷ [])
unfolding utf8 split cost_text
split-written salt hash hs hh =
    split-fields (utf8 "argon2id") (utf8 "v=19") cost_text salt hash (ground arith) (ground arith)
      (ground arith) hs hh

verify_of_split :
    (c : Crypto) (guess : String) (s p : Bytes) (ps : List Bytes)
    → split s ≡ (p, ps)
    → verify_password c s guess ≡ verify_parts c guess (p ∷ ps)
unfolding verify_password
verify_of_split c guess s p ps e = rw e refl

verify_of_fields :
    (c : Crypto) (guess : String) (costs : Option (ℕ × ℕ × ℕ)) (s h : Option Bytes)
    (salt hash : Bytes)
    → costs ≡ some (memory_cost, 3, 2)
    → s ≡ some salt
    → h ≡ some hash
    → length hash ≡ 32
    → verify_decoded c guess costs s h
      ≡ same_bytes (c.argon2 (utf8 guess) salt 3 memory_cost 2 32) hash
unfolding verify_decoded
verify_of_fields c guess costs s h salt hash e1 e2 e3 e4 = rw (e1, e2, e3, e4) refl

verify_fields :
    (c : Crypto)
    → Standard c
    → (guess : String) (salt hash : Bytes) → length hash ≡ 32
    → verify_parts c guess
        ([] ∷ utf8 "argon2id" ∷ utf8 "v=19" ∷ cost_text ∷ c.base64 salt ∷ c.base64 hash ∷ [])
      ≡ same_bytes (c.argon2 (utf8 guess) salt 3 memory_cost 2 32) hash
unfolding verify_parts utf8
verify_fields c std guess salt hash h =
    verify_of_fields c guess (scan_costs cost_text) (c.base64_decode (c.base64 salt))
      (c.base64_decode (c.base64 hash)) salt hash scan_costs_written (std.base64_decoded salt)
      (std.base64_decoded hash) h

-- Given a salt, `HashPassword` writes a text that `VerifyPassword` accepts for exactly the passwords
-- that Argon2 maps, under that salt and the costs of the text, to the same bytes as the password
-- that was hashed.
pub verify-hash_password :
    (c : Crypto)
    → Standard c
    → (password guess : String) (salt : Bytes)
    → (h : Bytes) × (hash_password c password (ok salt) ≡ ok h)
      × (verify_password c h guess
          ≡ same_bytes
              (c.argon2 (utf8 guess) salt 3 memory_cost 2 32)
              (c.argon2 (utf8 password) salt 3 memory_cost 2 32))
unfolding hash_password
verify-hash_password c std password guess salt =
    let hash = c.argon2 (utf8 password) salt 3 memory_cost 2 32 in
    (
      utf8 "$argon2id$v=19$m=65536,t=3,p=2$" ++ (c.base64 salt ++ (utf8 "$" ++ c.base64 hash)),
      refl,
      verify_of_split c guess _ _ _ (
            split-written (c.base64 salt) (c.base64 hash) (std.base64-IsPlain salt)
              (std.base64-IsPlain hash))
          ∙ verify_fields c std guess salt hash
              (std.argon2_length (utf8 password) salt 3 memory_cost 2 32),
    )
