-- ===== src/AuthLimit/Keys.antt =====
-- The two bounded maps: the map and the list have the same keys, and both stay bounded.
use collator.Prelude.{
  ◌≤◌, ◌<◌, List, [], ◌∷◌, length, Bool, true, false, ◌||◌, none, some, String, ◌=?◌, =?_iff, ◌≡◌,
  refl, sym, ap, ◌∙◌, arith, Bool-cases, inl, inr,
}
use collator.AuthLimit.Lru.{LruMap, is_key, find, update, erase, remove, back, without_back}

abbrev pub listed : String → List String → Bool
listed k [] = false
listed k (j ∷ ks) = j =? k || listed k ks

abbrev pub Distinct : List String → Type 0
Distinct [] = Unit
Distinct (k ∷ ks) = (listed k ks ≡ false) × Distinct ks

pub remove-same : (k : String) (ks : List String) → Distinct ks → listed k (remove k ks) ≡ false
unfolding remove
remove-same k [] d = refl
remove-same k (j ∷ ks) (q, d) = elim (Bool-cases (j =? k)) [
  | inl same ↦ rw same (ap (λ i. listed i ks) (sym ((=?_iff j k).0 same)) ∙ q)
  | inr differ ↦ rw (differ, differ) (remove-same k ks d)
]

pub remove-other :
    (k n : String) (ks : List String) → (k =? n) ≡ false → listed n (remove k ks) ≡ listed n ks
unfolding remove
remove-other k n [] h = refl
remove-other k n (j ∷ ks) h = elim (Bool-cases (j =? k)) [
  | inl same ↦
      let other : (j =? n) ≡ false = ap (λ i. i =? n) ((=?_iff j k).0 same) ∙ h in
      rw (same, other) refl
  | inr differ ↦ rw differ (ap (λ b. j =? n || b) (remove-other k n ks h))
]

pub remove-listed :
    (k n : String) (ks : List String) → listed n ks ≡ false → listed n (remove k ks) ≡ false
unfolding remove
remove-listed k n [] h = refl
remove-listed k n (j ∷ ks) h = ground (arith, remove-listed k n ks)

pub Distinct-remove : (k : String) (ks : List String) → Distinct ks → Distinct (remove k ks)
unfolding remove
Distinct-remove k [] d = tt
Distinct-remove k (j ∷ ks) (q, d) = ground (arith, remove-listed k j ks q, Distinct-remove k ks d)

pub back-listed : (ks : List String) (k : String) → back ks ≡ some k → listed k ks ≡ true
unfolding back
back-listed [] k h = absurd (cc)
back-listed (j ∷ []) k h = let same : j ≡ k = cc h in rw ((=?_iff j k).1 same) refl
back-listed (j ∷ i ∷ ks) k h = let rest = back-listed (i ∷ ks) k h in ground arith

pub back-none : (ks : List String) → back ks ≡ none → ks ≡ []
unfolding back
back-none [] h = refl
back-none (j ∷ []) h = absurd (cc)
back-none (j ∷ i ∷ ks) h = absurd (not_empty (back-none (i ∷ ks) h))
  where
    not_empty : i ∷ ks ≡ [] → ⊥
    not_empty e = cc

pub without_back-remove :
    (ks : List String) (k : String) → Distinct ks → back ks ≡ some k → without_back ks ≡ remove k ks
unfolding back without_back remove
without_back-remove [] k d h = refl
without_back-remove (j ∷ []) k d h = let same : j ≡ k = cc h in rw ((=?_iff j k).1 same) refl
without_back-remove (j ∷ i ∷ ks) k (q, d) h = elim (Bool-cases (j =? k)) [
  | inl same ↦
      let e : j ≡ k = (=?_iff j k).0 same in
      absurd (false_true (sym q ∙ ap (λ n. listed n (i ∷ ks)) e ∙ back-listed (i ∷ ks) k h))
  | inr differ ↦ rw differ (ap (◌∷◌ j) (without_back-remove (i ∷ ks) k d h))
]
  where
    false_true : false ≡ true → ⊥
    false_true e = cc

module _ {E : Type 0} where
  -- No key stands twice in the map.
  abbrev pub OnceEach : List (String × E) → Type 0
  OnceEach [] = Unit
  OnceEach ((k, e) ∷ m) = (is_key k m ≡ false) × OnceEach m

  -- The map and the list hold the same keys, each once.
  pub record SameKeys (l : LruMap E) : Type 0 where
    pub keys : (k : String) → is_key k l.entries ≡ listed k l.order
    pub distinct : Distinct l.order
    pub once : OnceEach l.entries

  pub erase-same : (k : String) (m : List (String × E)) → is_key k (erase k m) ≡ false
  unfolding is_key erase
  erase-same k [] = refl
  erase-same k ((j, e) ∷ m) = ground (arith, erase-same k m)

  pub erase-other :
      (k n : String) (m : List (String × E)) → (k =? n) ≡ false → is_key n (erase k m) ≡ is_key n m
  unfolding is_key erase
  erase-other k n [] h = refl
  erase-other k n ((j, e) ∷ m) h = elim (Bool-cases (j =? k)) [
    | inl same ↦
        let other : (j =? n) ≡ false = ap (λ i. i =? n) ((=?_iff j k).0 same) ∙ h in
        rw (same, other) (erase-other k n m h)
    | inr differ ↦ rw differ (ap (λ b. j =? n || b) (erase-other k n m h))
  ]

  pub length-erase-le : (k : String) (m : List (String × E)) → length (erase k m) ≤ length m
  unfolding erase
  length-erase-le k [] = omega arith
  length-erase-le k ((j, e) ∷ m) = ground (arith, length-erase-le k m)

  pub length-erase-lt :
      (k : String) (m : List (String × E)) → is_key k m ≡ true → length (erase k m) < length m
  unfolding is_key erase
  length-erase-lt k [] h = absurd (ground arith)
  length-erase-lt k ((j, e) ∷ m) h = elim (Bool-cases (j =? k)) [
    | inl same ↦ rw same (omega (arith, length-erase-le k m))
    | inr differ ↦ rw differ (omega (arith, length-erase-lt k m (ground arith)))
  ]

  pub update-is_key :
      (k n : String) (e : E) (m : List (String × E)) → is_key n (update k e m) ≡ is_key n m
  unfolding is_key update
  update-is_key k n e [] = refl
  update-is_key k n e ((j, d) ∷ m) = ground (arith, update-is_key k n e m)

  pub length-update :
      (k : String) (e : E) (m : List (String × E)) → length (update k e m) ≡ length m
  unfolding update
  length-update k e [] = refl
  length-update k e ((j, d) ∷ m) = ground (arith, length-update k e m)

  pub find-none : (k : String) (m : List (String × E)) → find k m ≡ none → is_key k m ≡ false
  unfolding find is_key
  find-none k [] h = refl
  find-none k ((j, e) ∷ m) h = elim (Bool-cases (j =? k)) [
    | inl same ↦ absurd (some_none (rw same at h))
    | inr differ ↦ rw differ (find-none k m (rw differ at h))
  ]
    where
      some_none : {d : E} → some d ≡ none → ⊥
      some_none h = cc

  pub find-some :
      (k : String) (m : List (String × E)) (d : E) → find k m ≡ some d → is_key k m ≡ true
  unfolding find is_key
  find-some k [] d h = absurd (cc)
  find-some k ((j, e) ∷ m) d h = elim (Bool-cases (j =? k)) [
    | inl same ↦ rw same refl
    | inr differ ↦ rw differ (find-some k m d (rw differ at h))
  ]

  pub erase-absent :
      (k n : String) (m : List (String × E)) → is_key n m ≡ false → is_key n (erase k m) ≡ false
  unfolding is_key erase
  erase-absent k n [] h = refl
  erase-absent k n ((j, e) ∷ m) h = ground (arith, erase-absent k n m)

  pub OnceEach-erase : (k : String) (m : List (String × E)) → OnceEach m → OnceEach (erase k m)
  unfolding erase
  OnceEach-erase k [] o = tt
  OnceEach-erase k ((j, e) ∷ m) (q, o) = ground (arith, erase-absent k j m q, OnceEach-erase k m o)

  pub OnceEach-update :
      (k : String) (e : E) (m : List (String × E)) → OnceEach m → OnceEach (update k e m)
  unfolding update
  OnceEach-update k e [] o = tt
  OnceEach-update k e ((j, d) ∷ m) (q, o) =
      ground (arith, update-is_key k j e m ∙ q, OnceEach-update k e m o)

  -- A key leaves both.
  pub drop-SameKeys :
      (k : String) (l : LruMap E)
      → SameKeys l
      → SameKeys (record { entries = erase k l.entries; order = remove k l.order })
  drop-SameKeys k l s = record {
    keys = λ n. elim (Bool-cases (k =? n)) [
      | inl same ↦
          let e : k ≡ n = (=?_iff k n).0 same in
          ap (λ i. is_key i (erase k l.entries)) (sym e)
          ∙ erase-same k l.entries
          ∙ sym (remove-same k l.order s.distinct)
          ∙ ap (λ i. listed i (remove k l.order)) e
      | inr differ ↦
          erase-other k n l.entries differ ∙ s.keys n ∙ sym (remove-other k n l.order differ)
    ];
    distinct = Distinct-remove k l.order s.distinct;
    once = OnceEach-erase k l.entries s.once;
  }
