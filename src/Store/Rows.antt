-- ===== src/Store/Rows.antt =====
-- The rows of `reward_events`: the two unique keys, and what an upsert does to them.
use collator.Prelude.{
  ℤ, eqb_ℤ, eq_of_parts, ◌≤ℤ◌, Time, is_zero, List, [], ◌∷◌, ◌++◌, false, ◌||◌, if◌then◌else◌,
  String, ◌=?◌, =?_iff, ◌≡◌, refl, ◌∙◌, arith, All, All-append, ◌⊎◌, inl, inr, Bool-cases,
}
use collator.Model.{
  plain, ok, err, Returns, >>=-Returns, >>=-Returns_eq, Returns-both, Returns-map,
  RewardObservation,
}
use collator.Store.{
  number_taken, hash_taken, merge_row, update_row, upsert_observation, upsert_all, Faults, upsert,
}

-- The primary key and the unique constraint.
abbrev pub Unique : List RewardObservation → Type 0
Unique [] = Unit
Unique (x ∷ xs) =
    (number_taken x.block_number xs ≡ false) × (hash_taken x.block_hash xs ≡ false) × Unique xs

-- The rows have the same keys, one by one.
abbrev SameKeys : List RewardObservation → List RewardObservation → Type 0
SameKeys [] [] = Unit
SameKeys [] (y ∷ ys) = ⊥
SameKeys (x ∷ xs) [] = ⊥
SameKeys (x ∷ xs) (y ∷ ys) =
    (x.block_number ≡ y.block_number) × (x.block_hash ≡ y.block_hash) × SameKeys xs ys

SameKeys-refl : (xs : List RewardObservation) → SameKeys xs xs
SameKeys-refl [] = tt
SameKeys-refl (x ∷ xs) = (refl, refl, SameKeys-refl xs)

SameKeys-number :
    (n : ℤ) (xs ys : List RewardObservation)
    → SameKeys xs ys
    → number_taken n ys ≡ number_taken n xs
unfolding number_taken
SameKeys-number n [] [] s = refl
SameKeys-number n [] (y ∷ ys) s = absurd s
SameKeys-number n (x ∷ xs) [] s = absurd s
SameKeys-number n (x ∷ xs) (y ∷ ys) (e, f, s) = rw (e, SameKeys-number n xs ys s)

SameKeys-hash :
    (h : String) (xs ys : List RewardObservation)
    → SameKeys xs ys
    → hash_taken h ys ≡ hash_taken h xs
unfolding hash_taken
SameKeys-hash h [] [] s = refl
SameKeys-hash h [] (y ∷ ys) s = absurd s
SameKeys-hash h (x ∷ xs) [] s = absurd s
SameKeys-hash h (x ∷ xs) (y ∷ ys) (e, f, s) = rw (f, SameKeys-hash h xs ys s)

SameKeys-Unique : (xs ys : List RewardObservation) → SameKeys xs ys → Unique xs → Unique ys
SameKeys-Unique [] [] s u = tt
SameKeys-Unique [] (y ∷ ys) s u = absurd s
SameKeys-Unique (x ∷ xs) [] s u = absurd s
SameKeys-Unique (x ∷ xs) (y ∷ ys) (e, f, s) (free, single, u) = (
  rw (← e, SameKeys-number x.block_number xs ys s) free,
  rw (← f, SameKeys-hash x.block_hash xs ys s) single,
  SameKeys-Unique xs ys s u,
)

update_row-SameKeys :
    (x : RewardObservation) (rows : List RewardObservation)
    → Returns (SameKeys rows) (update_row x rows)
unfolding update_row merge_row
update_row-SameKeys x [] = tt
update_row-SameKeys x (y ∷ ys) = elim (Bool-cases (eqb_ℤ y.block_number x.block_number)) [
  | inl same ↦ rw same (elim (Bool-cases (y.block_hash =? x.block_hash)) [
    | inl agree ↦ rw agree (refl, refl, SameKeys-refl ys)
    | inr differ ↦ rw differ tt
  ])
  | inr other ↦ rw other (
      >>=-Returns (SameKeys ys) (SameKeys (y ∷ ys)) (update_row x ys) (λ zs. ok (y ∷ zs))
        (update_row-SameKeys x ys) (λ zs s. (refl, refl, s)))
]

number_taken-snoc :
    (n : ℤ) (rows : List RewardObservation) (x : RewardObservation)
    → number_taken n (rows ++ x ∷ []) ≡ (number_taken n rows || eqb_ℤ x.block_number n)
unfolding number_taken
number_taken-snoc n [] x = ground arith
number_taken-snoc n (y ∷ ys) x = ground (arith, number_taken-snoc n ys x)

hash_taken-snoc :
    (h : String) (rows : List RewardObservation) (x : RewardObservation)
    → hash_taken h (rows ++ x ∷ []) ≡ (hash_taken h rows || x.block_hash =? h)
unfolding hash_taken
hash_taken-snoc h [] x = ground arith
hash_taken-snoc h (y ∷ ys) x = ground (arith, hash_taken-snoc h ys x)

Unique-snoc :
    (rows : List RewardObservation) (x : RewardObservation)
    → number_taken x.block_number rows ≡ false
    → hash_taken x.block_hash rows ≡ false
    → Unique rows
    → Unique (rows ++ x ∷ [])
unfolding number_taken hash_taken
Unique-snoc [] x free single u = (refl, refl, tt)
Unique-snoc (y ∷ ys) x free single (yn, yh, u) = (
  rw (number_taken-snoc y.block_number ys x) (ground arith),
  rw (hash_taken-snoc y.block_hash ys x)
      (ground (arith, =?_iff x.block_hash y.block_hash, =?_iff y.block_hash x.block_hash)),
  Unique-snoc ys x (ground arith) (ground arith) u,
)

-- A row for the block of the observation, under its hash.
abbrev pub Recorded : RewardObservation → List RewardObservation → Type 0
Recorded x [] = ⊥
Recorded x (y ∷ ys) =
    ((y.block_number ≡ x.block_number) × (y.block_hash ≡ x.block_hash)) ⊎ Recorded x ys

Recorded-SameKeys :
    (z : RewardObservation) (xs ys : List RewardObservation)
    → SameKeys xs ys
    → Recorded z xs
    → Recorded z ys
Recorded-SameKeys z [] [] s r = r
Recorded-SameKeys z [] (y ∷ ys) s r = absurd s
Recorded-SameKeys z (x ∷ xs) [] s r = absurd s
Recorded-SameKeys z (x ∷ xs) (y ∷ ys) (e, f, s) (inl (n, h)) = inl (rw (← e) n, rw (← f) h)
Recorded-SameKeys z (x ∷ xs) (y ∷ ys) (e, f, s) (inr r) = inr (Recorded-SameKeys z xs ys s r)

Recorded-snoc :
    (z x : RewardObservation) (rows : List RewardObservation)
    → Recorded z rows
    → Recorded z (rows ++ x ∷ [])
Recorded-snoc z x [] r = absurd r
Recorded-snoc z x (y ∷ ys) (inl here) = inl here
Recorded-snoc z x (y ∷ ys) (inr r) = inr (Recorded-snoc z x ys r)

Recorded-last :
    (z x : RewardObservation) (rows : List RewardObservation)
    → x.block_number ≡ z.block_number
    → x.block_hash ≡ z.block_hash
    → Recorded z (rows ++ x ∷ [])
Recorded-last z x [] n h = inl (n, h)
Recorded-last z x (y ∷ ys) n h = inr (Recorded-last z x ys n h)

update_row-Recorded :
    (x : RewardObservation) (rows : List RewardObservation)
    → Returns (Recorded x) (update_row x rows)
unfolding update_row merge_row
update_row-Recorded x [] = tt
update_row-Recorded x (y ∷ ys) = elim (Bool-cases (eqb_ℤ y.block_number x.block_number)) [
  | inl same ↦ rw same (elim (Bool-cases (y.block_hash =? x.block_hash)) [
    | inl agree ↦ rw agree (
        inl (
          eq_of_parts y.block_number x.block_number (ground arith),
          (=?_iff y.block_hash x.block_hash).0 agree,
        ))
    | inr differ ↦ rw differ tt
  ])
  | inr other ↦ rw other (
      >>=-Returns (Recorded x) (Recorded x) (update_row x ys) (λ zs. ok (y ∷ zs))
        (update_row-Recorded x ys) (λ zs r. inr r))
]

-- No row is of a block above the cursor.
abbrev pub UpTo : ℤ → List RewardObservation → Type 0
UpTo c = All (λ x. x.block_number ≤ℤ c)

UpTo-SameKeys : (c : ℤ) (xs ys : List RewardObservation) → SameKeys xs ys → UpTo c xs → UpTo c ys
UpTo-SameKeys c [] [] s u = tt
UpTo-SameKeys c [] (y ∷ ys) s u = absurd s
UpTo-SameKeys c (x ∷ xs) [] s u = absurd s
UpTo-SameKeys c (x ∷ xs) (y ∷ ys) (e, f, s) (h, u) = (rw (← e) h, UpTo-SameKeys c xs ys s u)

-- After an upsert the block is recorded under the hash that was given, every row that was there
-- still is, and the keys are unique if they were.
pub record Upserted (x : RewardObservation) (before after : List RewardObservation) : Type 0 where
  pub unique : Unique before → Unique after
  pub recorded : Recorded x after
  pub kept : (z : RewardObservation) → Recorded z before → Recorded z after
  pub within : (c : ℤ) → x.block_number ≤ℤ c → UpTo c before → UpTo c after

-- The row as it is written, with its time set.
abbrev timed : Time → RewardObservation → RewardObservation
timed now x = if is_zero x.authored_at then record x { authored_at = now } else x

timed-keys :
    (now : Time) (x : RewardObservation)
    → ((timed now x).block_number ≡ x.block_number) × ((timed now x).block_hash ≡ x.block_hash)
timed-keys now x = ground arith

Recorded-keys :
    (x z : RewardObservation) (rows : List RewardObservation)
    → z.block_number ≡ x.block_number
    → z.block_hash ≡ x.block_hash
    → Recorded z rows
    → Recorded x rows
Recorded-keys x z [] n h r = r
Recorded-keys x z (y ∷ ys) n h (inl (yn, yh)) = inl (yn ∙ n, yh ∙ h)
Recorded-keys x z (y ∷ ys) n h (inr r) = inr (Recorded-keys x z ys n h r)

upsert_timed-Upserted :
    (x z : RewardObservation) (rows : List RewardObservation)
    → z.block_number ≡ x.block_number
    → z.block_hash ≡ x.block_hash
    → Returns (Upserted x rows) (
        if number_taken z.block_number rows
        then update_row z rows
        else (if hash_taken z.block_hash rows
            then err (plain "duplicate key value: block_hash")
            else ok (rows ++ z ∷ [])))
upsert_timed-Upserted x z rows n h = elim (Bool-cases (number_taken z.block_number rows)) [
  | inl taken ↦ rw taken (
      Returns-both (SameKeys rows) (Recorded z) (Upserted x rows) (update_row z rows)
        (λ ys s r. record {
          unique = SameKeys-Unique rows ys s;
          recorded = Recorded-keys x z ys n h r;
          kept = λ y. Recorded-SameKeys y rows ys s;
          within = λ c _. UpTo-SameKeys c rows ys s;
        })
        (update_row-SameKeys z rows) (update_row-Recorded z rows))
  | inr new ↦ rw new (elim (Bool-cases (hash_taken z.block_hash rows)) [
    | inl used ↦ rw used tt
    | inr free ↦ rw free (record {
      unique = Unique-snoc rows z new free;
      recorded = Recorded-last x z rows n h;
      kept = λ y. Recorded-snoc y z rows;
      within = λ c h' u. All-append (λ y. y.block_number ≤ℤ c) rows (z ∷ []) u (rw n h', tt);
    })
  ])
]

pub upsert_observation-Upserted :
    (now : Time) (x : RewardObservation) (rows : List RewardObservation)
    → Returns (Upserted x rows) (upsert_observation now x rows)
unfolding upsert_observation
upsert_observation-Upserted now x rows =
    let (n, h) = timed-keys now x in upsert_timed-Upserted x (timed now x) rows n h

-- The same of the loop over the observations of a scan.
pub record AllUpserted (xs before after : List RewardObservation) : Type 0 where
  pub unique : Unique before → Unique after
  pub recorded : All (λ x. Recorded x after) xs
  pub kept : (z : RewardObservation) → Recorded z before → Recorded z after
  pub within : (c : ℤ) → UpTo c xs → UpTo c before → UpTo c after

pub upsert_all-AllUpserted :
    (fail : Faults) (now : Time) (xs rows : List RewardObservation)
    → Returns (AllUpserted xs rows) (upsert_all fail now xs rows)
unfolding upsert_all
upsert_all-AllUpserted fail now [] rows = record {
  unique = λ u. u;
  recorded = tt;
  kept = λ z r. r;
  within = λ c _ u. u;
}
upsert_all-AllUpserted fail now (x ∷ xs) rows =
    let P = AllUpserted (x ∷ xs) rows in
    >>=-Returns_eq P (fail (upsert x.block_number)) _ λ _ _.
      >>=-Returns (Upserted x rows) P (upsert_observation now x rows) (upsert_all fail now xs)
        (upsert_observation-Upserted now x rows)
        λ rows' u.
          Returns-map (AllUpserted xs rows') P (upsert_all fail now xs rows')
            (λ rows'' a. record {
              unique = λ q. a.unique (u.unique q);
              recorded = (a.kept x u.recorded, a.recorded);
              kept = λ z r. a.kept z (u.kept z r);
              within = λ c h b. a.within c h.1 (u.within c h.0 b);
            })
            (upsert_all-AllUpserted fail now xs rows')
