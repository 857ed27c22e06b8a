-- ===== src/Prelude/Clock.antt =====
-- Go's time.Time and time.Duration. A time is the number of nanoseconds since Go's zero time
-- (January 1, year 1), so that `IsZero` is the test for 0; times before it do not occur. `Sub`
-- gives a signed duration, which Go cuts off at the ends of an int64.
use Prim.Native.Nat.{ℕ, ◌+◌, ◌-◌, ◌<◌}
use mathlib.Core.Path.{◌≡◌}
use mathlib.Core.Bool.{Bool}
use native.Mathlib.Omega.{arith}
use collator.Prelude.Tests.{ltb, leb, ◌==◌, if◌then◌else◌}
use collator.Prelude.Int.{ℤ, pos, negsuc, sub_ℕ, leb_ℤ, two63}

abbrev pub Time : Type 0
Time = ℕ

abbrev pub second : ℕ
second = 1000000000

abbrev pub minute : ℕ
minute = 60000000000

abbrev pub hour : ℕ
hour = 3600000000000

abbrev pub is_zero : Time → Bool
is_zero t = t == 0

abbrev pub before : Time → Time → Bool
before t u = ltb t u

abbrev pub after : Time → Time → Bool
after t u = ltb u t

-- Go's saturation of a difference of two times.
unfoldable pub saturate : ℤ → ℤ
saturate (pos n) = pos (if ltb n two63 then n else two63 - 1)
saturate (negsuc n) = negsuc (if ltb n two63 then n else two63 - 1)

-- `now.Sub(t)`
unfoldable pub since : Time → Time → ℤ
unfolding saturate
since now t = saturate (sub_ℕ now t)

-- `now.Sub(t) >= k`
unfoldable pub elapsed : Time → Time → ℕ → Bool
unfolding since
elapsed now t k = leb_ℤ (pos k) (since now t)

-- For every duration below the cut the test compares the two times.
pub elapsed_lem : (now t k : ℕ) → k < two63 → elapsed now t k ≡ leb (t + k) now
unfolding elapsed
elapsed_lem now t k h = ground arith
