-- ===== src/AuthLimit/Bounded.antt =====
-- Every operation on a bounded map keeps its keys in order and its size within the limit.
use collator.Prelude.{
  ℕ, zero, suc, ◌+◌, ◌≤◌, ◌<◌, Time, before, List, [], ◌∷◌, length, Bool, true, false, ◌||◌, leb,
  Option, none, some, String, ◌=?◌, =?_iff, ◌≡◌, refl, sym, ap, subst, ◌∙◌, arith, Bool-cases, inl,
  inr,
}
use collator.AuthLimit.Lru.{
  LruMap, is_key, find, update, erase, remove, back, evict_oldest, make_room, push, obtain,
  drop_old,
}
use collator.AuthLimit.Keys.{
  listed, Distinct, SameKeys, OnceEach, drop-SameKeys, erase-absent, length-erase-le,
  length-erase-lt, update-is_key, length-update, find-none, find-some, OnceEach-update, remove-same,
  remove-other, Distinct-remove, back-listed, back-none, without_back-remove,
}

module _ {E : Type 0} where
  some_key : (m : List (String × E)) → 0 < length m → (k : String) × (is_key k m ≡ true)
  unfolding is_key
  some_key [] h = absurd (omega arith)
  some_key ((k, e) ∷ m) h = (k, rw ((=?_iff k k).1 refl) refl)

  evict_lem :
      (l : LruMap E) (o : Option String)
      → back l.order ≡ o
      → SameKeys l
      → 0 < length l.entries
      → let r = evict_oldest l o in
        SameKeys r
        × (length r.entries < length l.entries)
        × ((n : String) → is_key n l.entries ≡ false → is_key n r.entries ≡ false)
  unfolding evict_oldest
  evict_lem l none e s h =
      let (k, there) = some_key l.entries h in
      absurd (false_true (ap (listed k) (sym (back-none l.order e)) ∙ sym (s.keys k) ∙ there))
    where
      false_true : false ≡ true → ⊥
      false_true z = cc
  evict_lem l (some k) e s h = (
    rw (without_back-remove l.order k s.distinct e) (drop-SameKeys k l s),
    length-erase-lt k l.entries (s.keys k ∙ back-listed l.order k e),
    λ n. erase-absent k n l.entries,
  )

  -- With enough fuel there is room, and no key comes back.
  make_room_lem :
      (fuel limit : ℕ) (l : LruMap E)
      → SameKeys l
      → 0 < limit
      → length l.entries < fuel
      → let r = make_room fuel limit l in
        SameKeys r
        × (length r.entries < limit)
        × ((n : String) → is_key n l.entries ≡ false → is_key n r.entries ≡ false)
  unfolding make_room
  make_room_lem zero limit l s p h = absurd (omega arith)
  make_room_lem (suc fuel) limit l s p h = elim (Bool-cases (leb limit (length l.entries))) [
    | inr room ↦ rw room (s, ground arith, λ n k. k)
    | inl full ↦
        let some_left : 0 < length l.entries = ground arith in
        let (s', less, gone) = evict_lem l (back l.order) refl s some_left in
        let (a, b, c) =
          make_room_lem fuel limit (evict_oldest l (back l.order)) s' p (omega arith) in
        rw full (a, b, λ n k. c n (gone n k))
  ]

  -- In order and within the limit.
  pub record Bounded (limit : ℕ) (l : LruMap E) : Type 0 where
    pub same : SameKeys l
    pub small : length l.entries ≤ limit

  pub empty-Bounded : (limit : ℕ) → Bounded limit (record { entries = []; order = [] })
  unfolding is_key
  empty-Bounded limit = record {
    same = record { keys = λ n. refl; distinct = tt; once = tt };
    small = omega arith;
  }

  push-Bounded :
      (limit : ℕ) (k : String) (e : E) (l : LruMap E)
      → SameKeys l
      → length l.entries < limit
      → is_key k l.entries ≡ false
      → Bounded limit (push k e l)
  unfolding push is_key
  push-Bounded limit k e l s h absent = record {
    same = record {
      keys = λ n. ap (λ b. k =? n || b) (s.keys n);
      distinct = (sym (s.keys k) ∙ absent, s.distinct);
      once = (absent, s.once);
    };
    small = h;
  }

  touch-SameKeys :
      (k : String) (e : E) (l : LruMap E)
      → SameKeys l
      → is_key k l.entries ≡ true
      → SameKeys (record { entries = update k e l.entries; order = k ∷ remove k l.order })
  touch-SameKeys k e l s there = record {
    keys = λ n. update-is_key k n e l.entries ∙ s.keys n ∙ front n;
    distinct = (remove-same k l.order s.distinct, Distinct-remove k l.order s.distinct);
    once = OnceEach-update k e l.entries s.once;
  }
    where
      front : (n : String) → listed n l.order ≡ (k =? n || listed n (remove k l.order))
      front n = elim (Bool-cases (k =? n)) [
        | inl same ↦
            rw same
              (ap (λ i. listed i l.order) (sym ((=?_iff k n).0 same)) ∙ sym (s.keys k) ∙ there)
        | inr differ ↦ rw differ (sym (remove-other k n l.order differ))
      ]

  -- `ip` and `account` keep a map in order and within its limit.
  pub obtain-Bounded :
      (limit : ℕ) (k : String) (new : E) (touched : E → E) (l : LruMap E)
      → 0 < limit
      → Bounded limit l
      → Bounded limit (obtain limit k new touched l (find k l.entries)).0
  unfolding obtain
  obtain-Bounded limit k new touched l p b = by (find k l.entries) refl
    where
      by : (o : Option E) → find k l.entries ≡ o → Bounded limit (obtain limit k new touched l o).0
      by none e =
          let absent = find-none k l.entries e in
          let (s, room, gone) =
            make_room_lem (suc (length l.entries)) limit l b.same p (omega arith) in
          push-Bounded limit k new (make_room (suc (length l.entries)) limit l) s room
            (gone k absent)
      by (some d) e = record {
        same = touch-SameKeys k (touched d) l b.same (find-some k l.entries d e);
        small = omega (arith, length-update k (touched d) l.entries, b.small);
      }

  -- A change of an entry in place.
  pub update-Bounded :
      (limit : ℕ) (k : String) (e : E) (l : LruMap E)
      → Bounded limit l
      → Bounded limit (record l { entries = update k e l.entries })
  update-Bounded limit k e l b = record {
    same = record {
      keys = λ n. update-is_key k n e l.entries ∙ b.same.keys n;
      distinct = b.same.distinct;
      once = OnceEach-update k e l.entries b.same.once;
    };
    small = omega (arith, length-update k e l.entries, b.small);
  }

  pub erase-Bounded :
      (limit : ℕ) (k : String) (l : LruMap E)
      → Bounded limit l
      → Bounded limit (record { entries = erase k l.entries; order = remove k l.order })
  erase-Bounded limit k l b = record {
    same = drop-SameKeys k l b.same;
    small = omega (arith, length-erase-le k l.entries, b.small);
  }

  -- The entries of the first map are not in the second one.
  abbrev Apart : List (String × E) → List (String × E) → Type 0
  Apart pre [] = Unit
  Apart pre ((k, e) ∷ m) = (is_key k pre ≡ false) × Apart pre m

  Apart-keep :
      (k : String) (e : E) (pre m : List (String × E))
      → Apart pre m
      → is_key k m ≡ false
      → Apart ((k, e) ∷ pre) m
  unfolding is_key
  Apart-keep k e pre [] a h = tt
  Apart-keep k e pre ((j, d) ∷ m) (p, a) h =
      (ground (arith, =?_iff j k, =?_iff k j), Apart-keep k e pre m a (ground arith))

  drop_old_lem :
      (access : E → Time) (ttl : ℕ) (now : Time) (pre m : List (String × E)) (order : List String)
      → ((n : String) → (is_key n pre || is_key n m) ≡ listed n order)
      → Apart pre m
      → OnceEach m
      → Distinct order
      → let r = drop_old access ttl now m order in
        ((n : String) → (is_key n pre || is_key n r.entries) ≡ listed n r.order)
        × Distinct r.order
        × OnceEach r.entries
        × (length r.entries ≤ length m)
        × ((n : String) → is_key n m ≡ false → is_key n r.entries ≡ false)
  unfolding drop_old is_key
  drop_old_lem access ttl now pre [] order h a o d = (h, d, tt, omega arith, λ n k. refl)
  drop_old_lem access ttl now pre ((k, e) ∷ m) order h (p, a) (q, o) d =
      elim (Bool-cases (before (access e + ttl) now)) [
        | inl old ↦
            let (x, y, z, u, v) =
              drop_old_lem access ttl now pre m (remove k order) rest a o
                (Distinct-remove k order d) in
            rw old (x, y, z, omega arith, λ n g. v n (ground arith))
        | inr young ↦
            let (x, y, z, u, v) =
              drop_old_lem access ttl now ((k, e) ∷ pre) m order (λ n. swap n ∙ h n)
                (Apart-keep k e pre m a q) o d in
            rw young (
              λ n. swap_back n _ ∙ x n,
              y,
              (v k q, z),
              omega arith,
              λ n g. let w = v n (ground arith) in ground arith,
            )
      ]
    where
      rest : (n : String) → (is_key n pre || is_key n m) ≡ listed n (remove k order)
      rest n = elim (Bool-cases (k =? n)) [
        | inl same ↦
            let e1 : k ≡ n = (=?_iff k n).0 same in
            subst (λ i. (is_key i pre || is_key i m) ≡ listed i (remove k order)) e1
              (rw (p, q) (sym (remove-same k order d)))
        | inr differ ↦ (let g = h n in ground arith) ∙ sym (remove-other k n order differ)
      ]

      swap :
          (n : String)
          → ((k =? n || is_key n pre) || is_key n m) ≡ (is_key n pre || (k =? n || is_key n m))
      swap n = ground arith

      swap_back :
          (n : String) (b : Bool)
          → (is_key n pre || (k =? n || b)) ≡ ((k =? n || is_key n pre) || b)
      swap_back n b = ground arith

  -- A loop of `cleanup` keeps a map in order and within its limit.
  pub drop_old-Bounded :
      (access : E → Time) (ttl : ℕ) (now : Time) (limit : ℕ) (l : LruMap E)
      → Bounded limit l
      → Bounded limit (drop_old access ttl now l.entries l.order)
  unfolding is_key
  drop_old-Bounded access ttl now limit l b =
      let (x, y, z, u, v) =
        drop_old_lem access ttl now [] l.entries l.order b.same.keys (apart l.entries) b.same.once
          b.same.distinct in
      record { same = record { keys = x; distinct = y; once = z }; small = omega (arith, b.small) }
    where
      apart : (m : List (String × E)) → Apart [] m
      apart [] = tt
      apart ((k, e) ∷ m) = (refl, apart m)
