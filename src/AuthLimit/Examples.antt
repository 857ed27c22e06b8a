-- ===== src/AuthLimit/Examples.antt =====
-- Tests of the limiter.
use collator.Prelude.{pos, ◌+◌, ◌-◌, ◌*◌, ◌≤◌, Time, second, minute, List, [], ◌∷◌, String, arith}
use collator.AuthLimit.{
  GivenConfig, with_defaults, Limiter, default_config, new_limiter, allow, fail, success,
}
use collator.AuthLimit.Bounded.{empty-Bounded}
use collator.AuthLimit.Invariant.{IsValid, limiter-IsValid}
use collator.AuthLimit.Rate.{ending, allowed_count, allowed-bounded}

abbrev limiter : Limiter
limiter = record {
  config = default_config;
  global = record { tokens = 2 * second; last = minute };
  ips = record { entries = []; order = [] };
  accounts = record { entries = []; order = [] };
  next_cleanup = 2 * minute;
}

abbrev calls : List (String × String × Time)
calls = ("10.0.0.1", "admin", minute) ∷ ("10.0.0.2", "admin", minute + second) ∷ []

-- Nothing is given.
abbrev given : GivenConfig
given = record {
  global_burst = pos 0;
  global_refill = pos 0;
  ip_burst = pos 0;
  ip_refill = pos 0;
  max_ips = pos 0;
  max_accounts = pos 0;
  entry_ttl = pos 0;
  cleanup_interval = pos 0;
}

limiter-IsValid_example :
    IsValid (new_limiter (with_defaults given) minute)
    × IsValid (allow "10.0.0.1" "admin" minute limiter).0
    × IsValid (fail "admin" minute limiter)
    × IsValid (success "admin" limiter)
limiter-IsValid_example = limiter-IsValid "10.0.0.1" "admin" minute given limiter (record {
  limits = (omega arith, omega arith);
  addresses = empty-Bounded 4096;
  names = empty-Bounded 1024;
})

allowed-bounded_example :
    allowed_count limiter calls * second ≤ 2 * second + (ending minute calls - minute)
allowed-bounded_example = allowed-bounded calls limiter (omega arith, (omega arith, tt))
