-- ===== src/Model/Errors.antt =====
-- Go's `error` values, as far as the source looks into them: the text, the sentinels that
-- `errors.Is` finds, and the wrapping by `fmt.Errorf("...: %w", err)`. Numbers that a format puts
-- into a text are left out.
use collator.Prelude.{ℕ, List, ◌++◌, Bool, true, false, String, codes, ◌≡◌}

pub data Error : Type 0 where
  no_rows : Error
  reward_cursor_conflict : Error
  reward_block_hash_conflict : Error
  recovery_code_consumed : Error
  plain : String → Error
  wrapped : String → Error → Error

-- `err.Error()`
unfoldable pub error_text : Error → List ℕ
unfolding codes
error_text no_rows = codes "sql: no rows in result set"
error_text reward_cursor_conflict = codes "reward cursor conflict"
error_text reward_block_hash_conflict = codes "reward block hash conflict"
error_text recovery_code_consumed = codes "recovery code already consumed"
error_text (plain s) = codes s
error_text (wrapped s e) = codes s ++ codes ": " ++ error_text e

-- `errors.Is(err, sql.ErrNoRows)` and the like.
unfoldable pub is_no_rows : Error → Bool
is_no_rows no_rows = true
is_no_rows (wrapped s e) = is_no_rows e
is_no_rows reward_cursor_conflict = false
is_no_rows reward_block_hash_conflict = false
is_no_rows recovery_code_consumed = false
is_no_rows (plain s) = false

pub data Result {ℓ} (A : Type ℓ) : Type ℓ where
  ok : A → Result A
  err : Error → Result A

infixl 5 ◌>>=◌ ◌>>◌
abbrev pub ◌>>=◌ {ℓ κ} : {X : Type ℓ} {Y : Type κ} → Result X → (X → Result Y) → Result Y
ok x >>= next = next x
err x >>= next = err x

abbrev pub ◌>>◌ {ℓ} : {B : Type ℓ} → Result (Unit {0}) → Result B → Result B
first >> rest = first >>= λ _. rest

-- `if bad { return err }`
abbrev pub reject : Bool → Error → Result (Unit {0})
reject true why = err why
reject false why = ok tt

abbrev pub is_ok {ℓ} : {A : Type ℓ} → Result A → Bool
is_ok (err x) = false
is_ok (ok x) = true

-- A property of what is returned, if there was no error.
abbrev pub Returns {ℓ κ} : {A : Type ℓ} → (A → Type κ) → Result A → Type κ
Returns P (ok a) = P a
Returns P (err e) = Unit

pub anything {ℓ} : {A : Type ℓ} (r : Result A) → Returns (λ _. Unit {0}) r
anything (ok a) = tt
anything (err e) = tt

pub Returns-eq {ℓ κ} :
    {A : Type ℓ} (P : A → Type κ) (r : Result A) {a : A} → Returns P r → r ≡ ok a → P a
Returns-eq P r p e = rw e at p

pub >>=-eq-ok {ℓ κ} :
    {X : Type ℓ} {Y : Type κ} (r : Result X) (next : X → Result Y) {y : Y}
    → (r >>= next) ≡ ok y
    → (x : X) × (r ≡ ok x) × (next x ≡ ok y)
>>=-eq-ok (err why) next done = cc
>>=-eq-ok (ok x) next done = (x, λ i. ok x, done)

-- The rule for a bind.
pub >>=-Returns {ℓ κ ι} :
    {A B : Type ℓ} (Q : A → Type κ) (P : B → Type ι) (r : Result A) (f : A → Result B)
    → Returns Q r
    → ((a : A) → Q a → Returns P (f a))
    → Returns P (r >>= f)
>>=-Returns Q P (ok a) f q h = h a q
>>=-Returns Q P (err e) f q h = tt

-- The same, where the equation of the first result is wanted.
pub >>=-Returns_eq {ℓ ι} :
    {A B : Type ℓ} (P : B → Type ι) (r : Result A) (f : A → Result B)
    → ((a : A) → r ≡ ok a → Returns P (f a))
    → Returns P (r >>= f)
>>=-Returns_eq P (ok a) f h = h a (λ i. ok a)
>>=-Returns_eq P (err e) f h = tt

-- What follows from two properties of a result.
pub Returns-both {ℓ κ ι μ} :
    {A : Type ℓ} (P : A → Type κ) (Q : A → Type ι) (R : A → Type μ) (r : Result A)
    → ((a : A) → P a → Q a → R a)
    → Returns P r
    → Returns Q r
    → Returns R r
Returns-both P Q R (ok a) f p q = f a p q
Returns-both P Q R (err e) f p q = tt

pub Returns-map {ℓ κ ι} :
    {A : Type ℓ} (P : A → Type κ) (Q : A → Type ι) (r : Result A)
    → ((a : A) → P a → Q a)
    → Returns P r
    → Returns Q r
Returns-map P Q (ok a) f p = f a p
Returns-map P Q (err e) f p = tt

pub reject-ok : (b : Bool) (e : Error) {u : Unit {0}} → reject b e ≡ ok u → b ≡ false
reject-ok true e h = absurd (cc)
reject-ok false e h = λ i. false
