-- ===== src/AuthLimit/Rate.antt =====
-- How many logins the limiter lets through, and when it lets the next one through.
use collator.Prelude.{
  ℕ, ◌+◌, ◌-◌, ◌*◌, ◌≤◌, Time, before, List, [], ◌∷◌, Bool, true, false, ◌||◌, ltb, if◌then◌else◌,
  String, ◌=?◌, ◌≡◌, refl, sym, ap, subst, ◌∙◌, arith, Bool-cases, inl, inr,
}
use native.Mathlib.Nat.{add-mul, one-mul}
use collator.AuthLimit.Lru.{LruMap}
use collator.AuthLimit.{Config, Bucket, IpEntry, Limiter, refill, cleanup, ip_entry, decide, allow}

-- What one call does to the global bucket: `spent` is what it takes.
record Paid (c : Config) (b b' : Bucket) (now : Time) (allowed : Bool) : Type 0 where
  paid : b'.tokens + (if allowed then c.global_refill else 0) ≤ b.tokens + (now - b.last)
  at : b'.last ≡ now

cleanup_lem :
    (now : Time) (l : Limiter)
    → ((cleanup now l).config ≡ l.config) × ((cleanup now l).global ≡ l.global)
unfolding cleanup
cleanup_lem now l = elim (Bool-cases (before now l.next_cleanup)) [
  | inl early ↦ rw early (refl, refl)
  | inr due ↦ rw due (refl, refl)
]

refill_lem :
    (capacity interval : ℕ) (now : Time) (b : Bucket)
    → b.last ≤ now
    → let r = refill capacity interval now b in
      (r.tokens ≤ b.tokens + (now - b.last)) × (r.last ≡ now)
unfolding refill
refill_lem capacity interval now b h =
    let late : before now b.last ≡ false = ground arith in rw late (omega arith, refl)

decide_lem :
    (ip user : String) (now : Time) (l : Limiter) (global : Bucket) (ips : LruMap IpEntry)
    (e : IpEntry)
    → let r = decide ip user now l global ips e in
      (r.0.config ≡ l.config)
      × (r.0.global.last ≡ global.last)
      × (r.0.global.tokens + (if r.1.allowed then l.config.global_refill else 0) ≡ global.tokens)
unfolding decide
decide_lem ip user now l global ips e =
    elim (Bool-cases
      (ltb global.tokens l.config.global_refill || ltb e.bucket.tokens l.config.ip_refill)) [
        | inl short ↦ rw short (refl, refl, omega arith)
        | inr full ↦
            let enough : l.config.global_refill ≤ global.tokens = ground arith in
            rw full (refl, refl, omega arith)
      ]

paid_lem :
    (x i j y z w : ℕ) (b : Bool)
    → i ≡ j
    → x + (if b then i else 0) ≡ y
    → y ≤ z
    → z ≡ w
    → x + (if b then j else 0) ≤ w
paid_lem x i j y z w b e f g h = rw (← e) (omega arith)

allow_lem :
    (ip user : String) (now : Time) (l : Limiter)
    → l.global.last ≤ now
    → let r = allow ip user now l in
      (r.0.config ≡ l.config) × Paid l.config l.global r.0.global now r.1.allowed
unfolding allow
allow_lem ip0 user now l h =
    let k = cleanup now l in
    let c = k.config in
    let ip = if ip0 =? "" then "unknown" else ip0 in
    let global = refill c.global_burst c.global_refill now k.global in
    let r = ip_entry ip now k in
    let e = record r.1 { bucket = refill c.ip_burst c.ip_refill now r.1.bucket } in
    let (same, kept) = cleanup_lem now l in
    let (a, b, d) = decide_lem ip user now k global r.0 e in
    let (x, y) =
      refill_lem c.global_burst c.global_refill now k.global
        (subst (λ g. g.last ≤ now) (sym kept) h) in
    (
      a ∙ same,
      record {
        paid =
            paid_lem (decide ip user now k global r.0 e).0.global.tokens c.global_refill
              l.config.global_refill global.tokens (k.global.tokens + (now - k.global.last))
              (l.global.tokens + (now - l.global.last))
              (decide ip user now k global r.0 e).1.allowed (ap (λ t. t.global_refill) same) d x
              (ap (λ g. g.tokens + (now - g.last)) kept);
        at = b ∙ y;
      },
    )

-- Calls in the order of their times, and how many of them are let through.
abbrev pub InOrder : Time → List (String × String × Time) → Type 0
InOrder now [] = Unit
InOrder now ((ip, user, t) ∷ calls) = (now ≤ t) × InOrder t calls

abbrev pub ending : Time → List (String × String × Time) → Time
ending now [] = now
ending now ((ip, user, t) ∷ calls) = ending t calls

abbrev pub allowed_count : Limiter → List (String × String × Time) → ℕ
allowed_count l [] = 0
allowed_count l ((ip, user, t) ∷ calls) =
    let r = allow ip user t l in (if r.1.allowed then 1 else 0) + allowed_count r.0 calls

split_mul : (b : Bool) (n g : ℕ) → ((if b then 1 else 0) + n) * g ≡ (if b then g else 0) + n * g
split_mul true n g = add-mul 1 n g ∙ ap (λ t. t + n * g) (one-mul g)
split_mul false n g = omega arith

ending_le :
    (now : Time) (calls : List (String × String × Time))
    → InOrder now calls
    → now ≤ ending now calls
ending_le now [] o = omega arith
ending_le now ((ip, user, t) ∷ calls) (h, o) = omega (arith, ending_le t calls o)

-- What one call pays and what the later ones do: `p` is the price of the later ones.
step_le :
    (b : Bool) (p g h k0 k1 now t end last : ℕ)
    → h ≡ g
    → last ≡ now
    → now ≤ t
    → t ≤ end
    → k0 + (if b then h else 0) ≤ k1 + (t - last)
    → p ≤ k0 + (end - t)
    → (if b then g else 0) + p ≤ k1 + (end - now)
step_le true p g h k0 k1 now t end last e f o q x y = omega arith
step_le false p g h k0 k1 now t end last e f o q x y = omega arith

count_lem :
    (calls : List (String × String × Time)) (c : Config) (now : Time) (l : Limiter)
    → l.config ≡ c
    → l.global.last ≡ now
    → InOrder now calls
    → allowed_count l calls * c.global_refill ≤ l.global.tokens + (ending now calls - now)
count_lem [] c now l e f o = omega arith
count_lem ((ip, user, t) ∷ calls) c now l e f (p, o) =
    let r = allow ip user t l in
    let (same, once) = allow_lem ip user t l (rw f p) in
    let rest = count_lem calls c t r.0 (same ∙ e) once.at o in
    rw (split_mul r.1.allowed (allowed_count r.0 calls) c.global_refill) (
      step_le r.1.allowed (allowed_count r.0 calls * c.global_refill) c.global_refill
        l.config.global_refill r.0.global.tokens l.global.tokens now t (ending t calls)
        l.global.last (ap (λ d. d.global_refill) e) f p (ending_le t calls o) once.paid rest)

-- Over every sequence of calls in the order of their times, from any state: the logins that are let
-- through cost no more tokens than the global bucket holds at first and gains meanwhile.
pub allowed-bounded :
    (calls : List (String × String × Time)) (l : Limiter)
    → InOrder l.global.last calls
    → allowed_count l calls * l.config.global_refill
      ≤ l.global.tokens + (ending l.global.last calls - l.global.last)
allowed-bounded calls l o = count_lem calls l.config l.global.last l refl refl o
