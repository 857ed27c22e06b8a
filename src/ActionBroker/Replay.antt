-- ===== src/ActionBroker/Replay.antt =====
-- A nonce that was accepted is not accepted again.
use collator.Prelude.{
  ℕ, suc, ◌+◌, ◌≤◌, ◌<◌, Time, List, [], ◌∷◌, ◌++◌, length, length-append, filterb, true, false,
  not, leb, String, =?_iff, ◌≡◌, refl, ap, ◌∙◌, arith, All, inl, inr, Bool-cases,
}
use mathlib.Core.List.{append_assoc}
use collator.ActionBroker.{
  NonceEntry, Verifier, ttl, max_nonce, has_nonce, delete, forget, evict, insert, remember,
}
use collator.ActionBroker.Memory.{has_entry, IsValid, is_young, forget-order, remember-IsValid}

-- The entry stands in the list, with at most `k` younger ones behind it.
record Behind (e : NonceEntry) (k : ℕ) (es : List NonceEntry) : Type 0 where
  older : List NonceEntry
  younger : List NonceEntry
  split : es ≡ older ++ e ∷ younger
  few : length younger ≤ k

Behind-cons :
    (d e : NonceEntry) (k : ℕ) (es : List NonceEntry) → Behind e k es → Behind e k (d ∷ es)
Behind-cons d e k es b = record {
  older = d ∷ b.older;
  younger = b.younger;
  split = ap (◌∷◌ d) b.split;
  few = b.few;
}

length-young : (now : Time) (es : List NonceEntry) → length (filterb (is_young now) es) ≤ length es
length-young now [] = omega arith
length-young now (e ∷ es) = ground (arith, length-young now es)

filterb-Behind :
    (now : Time) (e : NonceEntry) (k : ℕ) (older younger : List NonceEntry)
    → is_young now e ≡ true
    → length younger ≤ k
    → Behind e k (filterb (is_young now) (older ++ e ∷ younger))
filterb-Behind now e k [] younger y few = record {
  older = [];
  younger = filterb (is_young now) younger;
  split = rw y refl;
  few = omega (arith, length-young now younger);
}
filterb-Behind now e k (d ∷ older) younger y few = elim (Bool-cases (is_young now d)) [
  | inl t ↦ rw t (Behind-cons d e k _ (filterb-Behind now e k older younger y few))
  | inr f ↦ rw f (filterb-Behind now e k older younger y few)
]

evict-Behind :
    (m : List (String × Time)) (e : NonceEntry) (k : ℕ) (older younger : List NonceEntry)
    → length younger ≤ k
    → suc k < max_nonce
    → Behind e k (evict m (older ++ e ∷ younger)).order
unfolding evict
evict-Behind m e k [] younger few h =
    let room : leb max_nonce (suc (length younger)) ≡ false = ground arith in
    rw room (record { older = []; younger = younger; split = refl; few = few })
evict-Behind m e k (d ∷ older) younger few h =
    elim (Bool-cases (leb max_nonce (suc (length (older ++ e ∷ younger))))) [
      | inl full ↦ rw full (evict-Behind (delete d.value m) e k older younger few h)
      | inr room ↦
          rw room (record { older = d ∷ older; younger = younger; split = refl; few = few })
    ]

snoc-Behind :
    (d e : NonceEntry) (k : ℕ) (es : List NonceEntry)
    → Behind e k es
    → Behind e (suc k) (es ++ d ∷ [])
snoc-Behind d e k es b = record {
  older = b.older;
  younger = b.younger ++ d ∷ [];
  split = ap (λ l. l ++ d ∷ []) b.split ∙ append_assoc b.older (e ∷ b.younger) (d ∷ []);
  few = omega (arith, length-append b.younger (d ∷ []), b.few);
}

Behind-mono : (e : NonceEntry) (k : ℕ) (es : List NonceEntry) → Behind e k es → Behind e (suc k) es
Behind-mono e k es b = record {
  older = b.older;
  younger = b.younger;
  split = b.split;
  few = omega (arith, b.few);
}

remember-Behind :
    (n : String) (t : Time) (v : Verifier) (e : NonceEntry) (k : ℕ)
    → is_young t e ≡ true
    → suc k < max_nonce
    → Behind e k v.order
    → Behind e (suc k) (remember n t v).0.order
unfolding remember insert
remember-Behind n t v e k y h b =
    let w = forget t v.nonces v.order in
    let order_is : w.order ≡ filterb (is_young t) (b.older ++ e ∷ b.younger) =
      forget-order t v.nonces v.order ∙ ap (filterb (is_young t)) b.split in
    let kept : Behind e k w.order = rw order_is (filterb-Behind t e k b.older b.younger y b.few) in
    elim (Bool-cases (has_nonce n w.nonces)) [
      | inl seen ↦ rw seen (Behind-mono e k w.order kept)
      | inr fresh ↦ rw fresh (
          snoc-Behind _ e k _
            (rw kept.split (evict-Behind w.nonces e k kept.older kept.younger kept.few h)))
    ]

-- The calls one after the other.
abbrev pub remember_all : List (String × Time) → Verifier → Verifier
remember_all [] v = v
remember_all ((n, t) ∷ calls) v = remember_all calls (remember n t v).0

-- The entry survives calls that come in time and are few enough.
remember_all-Behind :
    (calls : List (String × Time)) (v : Verifier) (e : NonceEntry) (k : ℕ)
    → All (λ c. c.1 ≤ e.at + ttl) calls
    → k + length calls < max_nonce
    → Behind e k v.order
    → Behind e (k + length calls) (remember_all calls v).order
remember_all-Behind [] v e k soon few b = record {
  older = b.older;
  younger = b.younger;
  split = b.split;
  few = omega (arith, b.few);
}
remember_all-Behind ((n, t) ∷ calls) v e k (now, soon) few b =
    let c =
      remember_all-Behind calls (remember n t v).0 e (suc k) soon (omega arith)
        (remember-Behind n t v e k (ground arith) (omega arith) b) in
    record { older = c.older; younger = c.younger; split = c.split; few = omega (arith, c.few) }

remember_all-IsValid :
    (calls : List (String × Time)) (v : Verifier) → IsValid v → IsValid (remember_all calls v)
remember_all-IsValid [] v i = i
remember_all-IsValid ((n, t) ∷ calls) v i =
    remember_all-IsValid calls (remember n t v).0 (remember-IsValid n t v i).0

Behind-has_entry :
    (e : NonceEntry) (older younger : List NonceEntry)
    → has_entry e.value (older ++ e ∷ younger) ≡ true
Behind-has_entry e [] younger = ground (arith, =?_iff e.value e.value)
Behind-has_entry e (d ∷ older) younger = ground (arith, Behind-has_entry e older younger)

-- The entry that an accepted call leaves is the last one.
accepted-Behind :
    (n : String) (t : Time) (v : Verifier)
    → (remember n t v).1 ≡ true
    → Behind (record { value = n; at = t }) 0 (remember n t v).0.order
unfolding remember insert
accepted-Behind n t v a = elim (Bool-cases (has_nonce n (forget t v.nonces v.order).nonces)) [
  | inl seen ↦ absurd (false_true (rw seen at a))
  | inr fresh ↦ rw fresh (record { older = _; younger = []; split = refl; few = omega arith })
]
  where
    false_true : false ≡ true → ⊥
    false_true e = cc

-- A nonce that was accepted at `t` is refused up to two minutes later, whatever at most 1022 other
-- calls come in between, with times of at most two minutes after `t`.
pub remember-no_replay :
    (n : String) (t later : Time) (v : Verifier) (calls : List (String × Time))
    → IsValid v
    → (remember n t v).1 ≡ true
    → All (λ c. c.1 ≤ t + ttl) calls
    → length calls ≤ 1022
    → later ≤ t + ttl
    → (remember n later (remember_all calls (remember n t v).0)).1 ≡ false
remember-no_replay n t later v calls i a soon few now =
    let e : NonceEntry = record { value = n; at = t } in
    let u = remember_all calls (remember n t v).0 in
    let j = remember_all-IsValid calls (remember n t v).0 (remember-IsValid n t v i).0 in
    let b =
      remember_all-Behind calls (remember n t v).0 e 0 soon (omega arith)
        (accepted-Behind n t v a) in
    let c =
      filterb-Behind later e (length calls) b.older b.younger (ground arith)
        (omega (arith, b.few)) in
    let there : has_entry n (filterb (is_young later) u.order) ≡ true =
      ap (λ l. has_entry n (filterb (is_young later) l)) b.split
      ∙ ap (has_entry n) c.split
      ∙ Behind-has_entry e c.older c.younger in
    (remember-IsValid n later u j).1 ∙ ap not there
