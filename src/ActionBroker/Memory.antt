-- ===== src/ActionBroker/Memory.antt =====
-- The memory of the verifier: its map, its order and its bound.
use collator.Prelude.{
  suc, ◌+◌, ◌≤◌, ◌<◌, Time, before, List, [], ◌∷◌, ◌++◌, length, length-append, Bool, false, ◌||◌,
  not, filterb, ltb, leb, String, ◌=?◌, =?_iff, ◌≡◌, refl, sym, ap, ◌∙◌, arith, All, inl, inr,
  Bool-cases,
}
use collator.ActionBroker.{
  NonceEntry, Verifier, ttl, max_nonce, has_nonce, delete, forget, evict, insert, remember,
}

abbrev pub has_entry : String → List NonceEntry → Bool
has_entry n [] = false
has_entry n (e ∷ es) = e.value =? n || has_entry n es

abbrev pub Distinct : List NonceEntry → Type 0
Distinct [] = Unit
Distinct (e ∷ es) = (has_entry e.value es ≡ false) × Distinct es

-- No entry of the second list is named in the first one.
abbrev Apart : List NonceEntry → List NonceEntry → Type 0
Apart pre = All (λ e. has_entry e.value pre ≡ false)

-- The map holds what the two lists hold.
abbrev Holds : List (String × Time) → List NonceEntry → List NonceEntry → Type 0
Holds m pre es = (n : String) → has_nonce n m ≡ (has_entry n pre || has_entry n es)

pub record IsValid (v : Verifier) : Type 0 where
  pub holds : (n : String) → has_nonce n v.nonces ≡ has_entry n v.order
  pub distinct : Distinct v.order
  pub bounded : length v.order ≤ max_nonce

delete-same : (k : String) (m : List (String × Time)) → has_nonce k (delete k m) ≡ false
unfolding has_nonce delete
delete-same k [] = refl
delete-same k ((j, t) ∷ m) = ground (arith, delete-same k m)

delete-other :
    (k n : String) (m : List (String × Time))
    → (k =? n) ≡ false
    → has_nonce n (delete k m) ≡ has_nonce n m
unfolding has_nonce delete
delete-other k n [] h = refl
delete-other k n ((j, t) ∷ m) h = elim (Bool-cases (j =? k)) [
  | inl same ↦
      let j_is : j ≡ k = (=?_iff j k).0 same in
      let other : (j =? n) ≡ false = ap (λ i. i =? n) j_is ∙ h in
      rw (same, other) (delete-other k n m h)
  | inr differ ↦ rw differ (ap (λ b. j =? n || b) (delete-other k n m h))
]

-- Leaving out the first entry, from the map and from the list.
delete-Holds :
    (e : NonceEntry) (m : List (String × Time)) (pre es : List NonceEntry)
    → Holds m pre (e ∷ es)
    → has_entry e.value pre ≡ false
    → has_entry e.value es ≡ false
    → Holds (delete e.value m) pre es
delete-Holds e m pre es h p q n = elim (Bool-cases (e.value =? n)) [
  | inl same ↦
      let n_is : e.value ≡ n = (=?_iff e.value n).0 same in
      rw (sym n_is) (rw (p, q) (delete-same e.value m))
  | inr differ ↦ delete-other e.value n m differ ∙ h n ∙ rw differ refl
]

Apart-keep :
    (e : NonceEntry) (pre es : List NonceEntry)
    → Apart pre es
    → has_entry e.value es ≡ false
    → Apart (e ∷ pre) es
Apart-keep e pre [] a h = tt
Apart-keep e pre (d ∷ es) (p, a) h = (
  ground (arith, =?_iff e.value d.value, =?_iff d.value e.value),
  Apart-keep e pre es a (ground arith),
)

abbrev pub is_young : Time → NonceEntry → Bool
is_young now e = not (before (e.at + ttl) now)

pub forget-order :
    (now : Time) (m : List (String × Time)) (es : List NonceEntry)
    → (forget now m es).order ≡ filterb (is_young now) es
unfolding forget
forget-order now m [] = refl
forget-order now m (e ∷ es) = elim (Bool-cases (ltb (e.at + ttl) now)) [
  | inl old ↦ rw old (forget-order now (delete e.value m) es)
  | inr young ↦ rw young (ap (◌∷◌ e) (forget-order now m es))
]

forget-Holds :
    (now : Time) (m : List (String × Time)) (pre es : List NonceEntry)
    → Holds m pre es
    → Apart pre es
    → Distinct es
    → Holds (forget now m es).nonces pre (forget now m es).order
unfolding forget
forget-Holds now m pre [] h a d n = h n
forget-Holds now m pre (e ∷ es) h (p, a) (q, d) n = elim (Bool-cases (ltb (e.at + ttl) now)) [
  | inl old ↦
      rw old (forget-Holds now (delete e.value m) pre es (delete-Holds e m pre es h p q) a d n)
  | inr young ↦ rw young (
      let rest =
        forget-Holds now m (e ∷ pre) es (λ i. h i ∙ swap i) (Apart-keep e pre es a q) d n in
      ground arith)
]
  where
    swap :
        (i : String)
        → (has_entry i pre || (e.value =? i || has_entry i es))
          ≡ ((e.value =? i || has_entry i pre) || has_entry i es)
    swap i = ground arith

has_entry-filterb :
    (now : Time) (n : String) (es : List NonceEntry)
    → has_entry n es ≡ false
    → has_entry n (filterb (is_young now) es) ≡ false
has_entry-filterb now n [] h = refl
has_entry-filterb now n (e ∷ es) h = ground (arith, has_entry-filterb now n es)

Distinct-filterb :
    (now : Time) (es : List NonceEntry) → Distinct es → Distinct (filterb (is_young now) es)
Distinct-filterb now [] d = tt
Distinct-filterb now (e ∷ es) (q, d) =
    ground (arith, has_entry-filterb now e.value es q, Distinct-filterb now es d)

length-filterb-le :
    (now : Time) (es : List NonceEntry) → length (filterb (is_young now) es) ≤ length es
length-filterb-le now [] = omega arith
length-filterb-le now (e ∷ es) = ground (arith, length-filterb-le now es)

evict_lem :
    (m : List (String × Time)) (es : List NonceEntry)
    → Holds m [] es
    → Distinct es
    → Holds (evict m es).nonces [] (evict m es).order
      × Distinct (evict m es).order
      × (length (evict m es).order < max_nonce)
      × ((n : String) → has_entry n es ≡ false → has_entry n (evict m es).order ≡ false)
unfolding evict
evict_lem m [] h d = (h, d, omega arith, λ n k. k)
evict_lem m (e ∷ es) h (q, d) = elim (Bool-cases (leb max_nonce (suc (length es)))) [
  | inl full ↦
      let (a, b, c, f) = evict_lem (delete e.value m) es (delete-Holds e m [] es h refl q) d in
      rw full (a, b, c, λ n k. f n (ground arith))
  | inr room ↦ rw room (h, (q, d), ground arith, λ n k. k)
]

has_entry-snoc :
    (n : String) (es : List NonceEntry) (e : NonceEntry)
    → has_entry n (es ++ e ∷ []) ≡ (has_entry n es || e.value =? n)
has_entry-snoc n [] e = ground arith
has_entry-snoc n (d ∷ es) e = ground (arith, has_entry-snoc n es e)

Distinct-snoc :
    (es : List NonceEntry) (e : NonceEntry)
    → Distinct es
    → has_entry e.value es ≡ false
    → Distinct (es ++ e ∷ [])
Distinct-snoc [] e d h = (refl, tt)
Distinct-snoc (x ∷ es) e (q, d) h = (
  ground (arith, has_entry-snoc x.value es e, =?_iff x.value e.value, =?_iff e.value x.value),
  Distinct-snoc es e d (ground arith),
)

forget-IsValid : (t : Time) (v : Verifier) → IsValid v → IsValid (forget t v.nonces v.order)
forget-IsValid t v i =
    let order_is = forget-order t v.nonces v.order in
    record {
      holds = λ n. forget-Holds t v.nonces [] v.order i.holds (apart v.order) i.distinct n;
      distinct = rw order_is (Distinct-filterb t v.order i.distinct);
      bounded = rw order_is (omega (arith, length-filterb-le t v.order, i.bounded));
    }
  where
    apart : (es : List NonceEntry) → Apart [] es
    apart [] = tt
    apart (e ∷ es) = (refl, apart es)

insert-IsValid :
    (n : String) (t : Time) (v : Verifier)
    → IsValid v
    → length v.order < max_nonce
    → has_entry n v.order ≡ false
    → IsValid (insert n t v)
unfolding insert has_nonce
insert-IsValid n t v i room h =
    let e : NonceEntry = record { value = n; at = t } in
    record {
      holds = λ k. let a = i.holds k in let b = has_entry-snoc k v.order e in ground arith;
      distinct = Distinct-snoc v.order e i.distinct h;
      bounded = omega (arith, length-append v.order (e ∷ []));
    }

-- The verifier stays in order: its map and its list hold the same nonces, none twice, and at most
-- 1024. It accepts a nonce exactly if no entry of it is left that is at most two minutes old.
pub remember-IsValid :
    (n : String) (t : Time) (v : Verifier)
    → IsValid v
    → IsValid (remember n t v).0
      × ((remember n t v).1 ≡ not (has_entry n (filterb (is_young t) v.order)))
unfolding remember
remember-IsValid n t v i =
    let w = forget t v.nonces v.order in
    let j = forget-IsValid t v i in
    let order_is = forget-order t v.nonces v.order in
    let known : has_nonce n w.nonces ≡ has_entry n (filterb (is_young t) v.order) =
      j.holds n ∙ ap (has_entry n) order_is in
    elim (Bool-cases (has_nonce n w.nonces)) [
      | inl seen ↦ rw seen (j, ap not (sym seen ∙ known))
      | inr fresh ↦
          let (a, b, c, f) = evict_lem w.nonces w.order j.holds j.distinct in
          let u = evict w.nonces w.order in
          let k : IsValid u = record { holds = a; distinct = b; bounded = omega (arith, c) } in
          rw fresh
            (insert-IsValid n t u k c (f n (sym (j.holds n) ∙ fresh)), ap not (sym fresh ∙ known))
    ]
