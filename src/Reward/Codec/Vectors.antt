-- ===== src/Reward/Codec/Vectors.antt =====
-- SCALE's compact lengths and vectors of accounts: what is encoded is decoded again, and nothing
-- else is accepted.
use mathlib.Core.List.{flatten}
use collator.Prelude.{
  ℕ, zero, suc, ◌+◌, ◌-◌, ◌*◌, ◌%◌, ◌^◌, ◌≤◌, ◌<◌, List, [], ◌∷◌, ◌++◌, length, take, drop, ◌≡◌,
  refl, ap, ◌∙◌, arith, All, length-append, take-append, drop-append, ltb, if◌then◌else◌, ◌==◌, sym,
  ◌||◌, not, length-take-le, length-drop,
}
use mathlib.Core.Path.{ap₂}
use collator.Model.{ok, err, plain, >>=-eq-ok}
use collator.Reward.Codec.{decode_compact, decode_account_vector, accounts_from, slice}
use collator.Reward.Codec.Numbers.{to_bytes, bit_and-three}

-- SCALE's encoding of a length below 2^30.
unfoldable pub encode_compact : ℕ → List ℕ
encode_compact n =
    if ltb n 64
    then n * 4 ∷ []
    else (if ltb n 16384 then to_bytes 2 (n * 4 + 1) else to_bytes 4 (n * 4 + 2))

pub decode-encode_compact :
    (n : ℕ) (rest : List ℕ)
    → n < 2 ^ 30
    → decode_compact (encode_compact n ++ rest) ≡ ok (n, length (encode_compact n))
unfolding decode_compact encode_compact
decode-encode_compact n rest h = ground (
  arith,
  bit_and-three (n * 4),
  bit_and-three ((n * 4 + 1) % 256),
  bit_and-three ((n * 4 + 2) % 256),
)

abbrev pub IsAccount : List ℕ → Type 0
IsAccount a = length a ≡ 32

unfoldable pub encode_account_vector : List (List ℕ) → List ℕ
encode_account_vector accounts = encode_compact (length accounts) ++ flatten accounts

length-flatten :
    (accounts : List (List ℕ))
    → All IsAccount accounts
    → length (flatten accounts) ≡ length accounts * 32
unfolding flatten
length-flatten [] h = refl
length-flatten (a ∷ accounts) (ha, h) =
    omega (arith, length-append a (flatten accounts), length-flatten accounts h)

drop-nil : (k : ℕ) → drop {A = ℕ} k [] ≡ []
drop-nil zero = refl
drop-nil (suc k) = refl

drop-drop : (k n : ℕ) (raw : List ℕ) → drop k (drop n raw) ≡ drop (n + k) raw
drop-drop k zero raw = ap (λ t. drop t raw) (omega arith)
drop-drop k (suc n) [] = drop-nil k ∙ sym (drop-nil (suc n + k))
drop-drop k (suc n) (b ∷ raw) =
    drop-drop k n raw
    ∙ ap (λ t. drop t (b ∷ raw)) (let e : suc (n + k) ≡ suc n + k = omega arith in e)

accounts_from-flatten :
    (offset : ℕ) (raw : List ℕ) (accounts : List (List ℕ))
    → All IsAccount accounts
    → drop offset raw ≡ flatten accounts
    → accounts_from (length accounts) offset raw ≡ accounts
unfolding accounts_from flatten
accounts_from-flatten offset raw [] h e = refl
accounts_from-flatten offset raw (a ∷ accounts) (ha, h) e =
    let width : offset + 32 - offset ≡ 32 = omega arith in
    ap₂ ◌∷◌ (rw (width, e) (take-append 32 a (flatten accounts) ha)) (
      accounts_from-flatten (offset + 32) raw accounts h
        (sym (drop-drop 32 offset raw) ∙ ap (drop 32) e ∙ drop-append 32 a (flatten accounts) ha))

-- Every vector of at most 1024 accounts of 32 bytes is read back from its SCALE encoding.
pub decode-encode_account_vector :
    (accounts : List (List ℕ))
    → length accounts ≤ 1024
    → All IsAccount accounts
    → decode_account_vector (encode_account_vector accounts) ≡ ok accounts
unfolding decode_account_vector encode_account_vector
decode-encode_account_vector accounts small h =
    let n = length accounts in
    let head = encode_compact n in
    rw (decode-encode_compact n (flatten accounts) (omega arith)) (
      rw
        (
          length-append head (flatten accounts),
          length-flatten accounts h,
          accounts_from-flatten (length head) (head ++ flatten accounts) accounts h
              (drop-append (length head) head (flatten accounts) refl),
        )
        (ground arith))

length-accounts_from :
    (count offset : ℕ) (raw : List ℕ)
    → offset + count * 32 ≤ length raw
    → (length (accounts_from count offset raw) ≡ count)
      × All IsAccount (accounts_from count offset raw)
unfolding accounts_from
length-accounts_from zero offset raw h = (refl, tt)
length-accounts_from (suc count) offset raw h =
    let rest = length-accounts_from count (offset + 32) raw (omega arith) in
    let width : offset + 32 - offset ≡ 32 = omega arith in
    let here : length (slice offset (offset + 32) raw) ≡ 32 =
      rw width (length-take-le 32 (drop offset raw) (omega (arith, length-drop offset raw))) in
    (ap suc rest.0, (here, rest.1))

take-append-drop : (n : ℕ) (xs : List ℕ) → take n xs ++ drop n xs ≡ xs
take-append-drop zero xs = refl
take-append-drop (suc n) [] = refl
take-append-drop (suc n) (x ∷ xs) = ap (◌∷◌ x) (take-append-drop n xs)

drop-all : (xs : List ℕ) (n : ℕ) → length xs ≤ n → drop n xs ≡ []
drop-all [] n h = drop-nil n
drop-all (x ∷ xs) zero h = absurd (omega arith)
drop-all (x ∷ xs) (suc n) h = drop-all xs n (omega arith)

flatten-accounts_from :
    (count offset : ℕ) (raw : List ℕ)
    → offset + count * 32 ≡ length raw
    → flatten (accounts_from count offset raw) ≡ drop offset raw
unfolding accounts_from flatten
flatten-accounts_from zero offset raw h = sym (drop-all raw offset (omega arith))
flatten-accounts_from (suc count) offset raw h =
    let width : offset + 32 - offset ≡ 32 = omega arith in
    rw
      (
        width,
        flatten-accounts_from count (offset + 32) raw (omega arith),
        ← drop-drop 32 offset raw,
      )
      (take-append-drop 32 (drop offset raw))

decode_compact_width : (raw : List ℕ) (n width : ℕ) → decode_compact raw ≡ ok (n, width) → width ≤ 4
unfolding decode_compact
decode_compact_width [] n width h = absurd (cc)
decode_compact_width (b ∷ bs) n width h = ground arith

accepted :
    (count offset : ℕ) (raw : List ℕ) {accounts : List (List ℕ)}
    → (if ltb 1024 count || not (offset + count * 32 == length raw)
        then err (plain "invalid account vector")
        else ok (accounts_from count offset raw))
      ≡ ok accounts
    → (count ≤ 1024)
      × (offset + count * 32 ≡ length raw)
      × (accounts_from count offset raw ≡ accounts)
accepted count offset raw h = ground arith

-- A vector is accepted only if it is whole: at most 1024 accounts, each of 32 bytes, which one
-- after the other are all of the bytes that follow a length of four bytes at most.
pub decode_account_vector_whole :
    (raw : List ℕ) {accounts : List (List ℕ)}
    → decode_account_vector raw ≡ ok accounts
    → (length accounts ≤ 1024)
      × All IsAccount accounts
      × ((width : ℕ) × (width ≤ 4) × (flatten accounts ≡ drop width raw))
unfolding decode_account_vector
decode_account_vector_whole raw h =
    let ((count, offset), header, body) = >>=-eq-ok (decode_compact raw) _ h in
    let (small, fits, e) = accepted count offset raw body in
    let (count_is, whole) = length-accounts_from count offset raw (omega arith) in
    rw (← e) (
      rw count_is small,
      whole,
      (
        offset,
        decode_compact_width raw count offset header,
        flatten-accounts_from count offset raw fits,
      ),
    )
