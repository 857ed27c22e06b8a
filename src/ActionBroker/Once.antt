-- ===== src/ActionBroker/Once.antt =====
-- What `Verify` of internal/actionbroker/actionbroker.go accepts, it accepts once.
use collator.Prelude.{
  ◌+◌, ◌≤◌, ℤ, pos, negsuc, Time, List, [], ◌∷◌, length, Bool, true, false, Option, none, some,
  String, some-injective, if◌then◌else◌, ◌≡◌, refl, sym, ap, ◌∙◌, arith, All, Bool-cases, inl, inr,
}
use collator.Model.{Error, Result, ok, err, is_ok}
use collator.Auth.{Bytes}
use collator.ActionBroker.{Verifier, ttl, remember}
use collator.ActionBroker.Memory.{IsValid}
use collator.ActionBroker.Replay.{remember_all, remember-no_replay}
use collator.ActionBroker.Verify.{
  Codecs, Header, Call, parse_int, issued_at, is_expired, check_parts, trimmed, check_call,
  remembered, verify,
}

-- The calls one after the other.
abbrev pub verify_all : Codecs → Bytes → List Call → Verifier → Verifier
verify_all c key [] v = v
verify_all c key (x ∷ calls) v = verify_all c key calls (verify c key x v).1

-- The calls that reach the memory, with their nonces and times.
abbrev pub passing : Codecs → Bytes → List Call → List (String × Time)
passing c key [] = []
passing c key (x ∷ calls) =
    let rest = passing c key calls in
    if is_ok (check_call c key x) then ((trimmed x.header).nonce, x.now) ∷ rest else rest

is_ok-if : (b : Bool) (e : Error) → is_ok {A = Unit {0}} (if b then ok tt else err e) ≡ b
is_ok-if true e = refl
is_ok-if false e = refl

-- The memory decides on what passes the checks, and the rest does not reach it.
remembered-ok :
    (r : Result (Unit {0})) (nonce : String) (now : Time) (v : Verifier)
    → is_ok r ≡ true
    → let m = remember nonce now v in
      let o = remembered r nonce now v in (is_ok o.0 ≡ m.1) × (o.1 ≡ m.0)
unfolding remembered
remembered-ok (ok u) nonce now v h = (is_ok-if (remember nonce now v).1 _, refl)
remembered-ok (err e) nonce now v h = absurd (cc)

remembered-bad :
    (r : Result (Unit {0})) (nonce : String) (now : Time) (v : Verifier)
    → is_ok r ≡ false
    → let o = remembered r nonce now v in (is_ok o.0 ≡ false) × (o.1 ≡ v)
unfolding remembered
remembered-bad (ok u) nonce now v h = absurd (cc)
remembered-bad (err e) nonce now v h = (refl, refl)

verify-passed :
    (c : Codecs) (key : Bytes) (x : Call) (v : Verifier)
    → is_ok (check_call c key x) ≡ true
    → let m = remember (trimmed x.header).nonce x.now v in
      (is_ok (verify c key x v).0 ≡ m.1) × ((verify c key x v).1 ≡ m.0)
unfolding verify
verify-passed c key x v = remembered-ok (check_call c key x) (trimmed x.header).nonce x.now v

verify-refused :
    (c : Codecs) (key : Bytes) (x : Call) (v : Verifier)
    → is_ok (check_call c key x) ≡ false
    → (is_ok (verify c key x v).0 ≡ false) × ((verify c key x v).1 ≡ v)
unfolding verify
verify-refused c key x v = remembered-bad (check_call c key x) (trimmed x.header).nonce x.now v

verify_all-memory :
    (c : Codecs) (key : Bytes) (calls : List Call) (v : Verifier)
    → verify_all c key calls v ≡ remember_all (passing c key calls) v
verify_all-memory c key [] v = refl
verify_all-memory c key (x ∷ calls) v = elim (Bool-cases (is_ok (check_call c key x))) [
  | inl good ↦ rw good (
      verify_all-memory c key calls (verify c key x v).1
      ∙ ap (remember_all (passing c key calls)) (verify-passed c key x v good).1)
  | inr bad ↦ rw bad (
      verify_all-memory c key calls (verify c key x v).1
      ∙ ap (remember_all (passing c key calls)) (verify-refused c key x v bad).1)
]

passing-before :
    (c : Codecs) (key : Bytes) (calls : List Call) (limit until : Time)
    → limit ≤ until
    → All (λ x. x.now ≤ limit) calls
    → All (λ n. n.1 ≤ until) (passing c key calls)
passing-before c key [] limit until h all = tt
passing-before c key (x ∷ calls) limit until h (here, all) =
    elim (Bool-cases (is_ok (check_call c key x))) [
      | inl good ↦ rw good (omega (arith, here), passing-before c key calls limit until h all)
      | inr bad ↦ rw bad (passing-before c key calls limit until h all)
    ]

-- Two times at which the same request is not expired are at most twice the skew apart.
both_in_time :
    (t later : Time) (issued : ℤ)
    → is_expired t issued ≡ false
    → is_expired later issued ≡ false
    → later ≤ t + ttl
unfolding is_expired
both_in_time t later (pos s) a b = ground arith
both_in_time t later (negsuc s) a b = ground arith

check_parts-InTime :
    (c : Codecs) (key : Bytes) (h : Header) (o : Option ℤ) (body : Bytes) (now : Time)
    → is_ok (check_parts c key h o body now) ≡ true
    → (unix : ℤ) × (o ≡ some unix) × (is_expired now (issued_at unix) ≡ false)
unfolding check_parts
check_parts-InTime c key h none body now e = absurd (cc)
check_parts-InTime c key h (some unix) body now e = (unix, refl, ground arith)

check_call-InTime :
    (c : Codecs) (key : Bytes) (x : Call)
    → is_ok (check_call c key x) ≡ true
    → (unix : ℤ) × (parse_int (trimmed x.header).timestamp ≡ some unix)
      × (is_expired x.now (issued_at unix) ≡ false)
unfolding check_call
check_call-InTime c key x h =
    check_parts-InTime c key (trimmed x.header) (parse_int (trimmed x.header).timestamp) x.body
      x.now h

verify-checked :
    (c : Codecs) (key : Bytes) (x : Call) (v : Verifier)
    → is_ok (verify c key x v).0 ≡ true
    → is_ok (check_call c key x) ≡ true
verify-checked c key x v h = elim (Bool-cases (is_ok (check_call c key x))) [
  | inl good ↦ good
  | inr bad ↦ bad ∙ sym (verify-refused c key x v bad).0 ∙ h
]

-- Two calls with one timestamp that both pass the checks are at most two minutes apart.
near_calls :
    (c : Codecs) (key : Bytes) (x again : Call)
    → is_ok (check_call c key x) ≡ true
    → is_ok (check_call c key again) ≡ true
    → (trimmed again.header).timestamp ≡ (trimmed x.header).timestamp
    → again.now ≤ x.now + ttl
near_calls c key x again h k same =
    let (u, e, f) = check_call-InTime c key x h in
    let (w, d, g) = check_call-InTime c key again k in
    let w_is : w ≡ u = some-injective (sym d ∙ ap parse_int same ∙ e) in
    both_in_time x.now again.now (issued_at u) f
      (ap (λ n. is_expired again.now (issued_at n)) (sym w_is) ∙ g)

-- From a valid memory on, a call that `Verify` has accepted is refused ever after, whatever the body
-- and the signature that come with its timestamp and nonce. Between the two stand any calls that are
-- not after the second one, at most 1022 of which pass the checks of time and signature.
pub verify-once :
    (c : Codecs) (key : Bytes) (x again : Call) (calls : List Call) (v : Verifier)
    → IsValid v
    → is_ok (verify c key x v).0 ≡ true
    → (trimmed again.header).timestamp ≡ (trimmed x.header).timestamp
    → (trimmed again.header).nonce ≡ (trimmed x.header).nonce
    → All (λ y. y.now ≤ again.now) calls
    → length (passing c key calls) ≤ 1022
    → is_ok (verify c key again (verify_all c key calls (verify c key x v).1)).0 ≡ false
verify-once c key x again calls v valid accepted same_time same_nonce in_order few =
    elim (Bool-cases (is_ok (check_call c key again))) [
      | inr bad ↦ (verify-refused c key again _ bad).0
      | inl good ↦
          let passed = verify-checked c key x v accepted in
          let near = near_calls c key x again passed good same_time in
          let m = verify-passed c key x v passed in
          let n = (trimmed x.header).nonce in
          let met = verify_all c key calls (verify c key x v).1 in
          (verify-passed c key again met good).0
          ∙ ap (λ k. (remember k again.now met).1) same_nonce
          ∙ ap (λ w. (remember n again.now w).1)
              (verify_all-memory c key calls (verify c key x v).1
                ∙ ap (remember_all (passing c key calls)) m.1)
          ∙ remember-no_replay n x.now again.now v (passing c key calls) valid (sym m.0 ∙ accepted)
              (passing-before c key calls again.now (x.now + ttl) near in_order) few near
    ]
