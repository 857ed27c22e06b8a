-- ===== src/AuthLimit.antt =====
-- internal/authlimit/limiter.go: the limiter of logins. A bucket's tokens are counted in
-- nanoseconds of its refill time, so that one token is the whole interval and the fractions are
-- exact; the source has them as floating-point numbers.
pub mod Lru
pub mod Keys
pub mod Bounded
pub mod Invariant
pub mod Rate
pub mod Examples
use collator.Prelude.{
  ℤ, pos, pos_part, leb_ℤ, ℕ, zero, suc, ◌+◌, ◌-◌, ◌*◌, ℤ, pos, pos_part, leb_ℤ, Time, second,
  minute, before, List, [], ◌∷◌, map, length, Bool, true, false, ◌||◌, ltb, leb, ◌==◌, min, max,
  if◌then◌else◌, Option, none, some, String, ◌=?◌,
}
use collator.AuthLimit.Lru.{LruMap, empty_lru, find, update, erase, remove, obtain, drop_old}

pub record Config : Type 0 where
  pub global_burst : ℕ
  pub global_refill : ℕ
  pub ip_burst : ℕ
  pub ip_refill : ℕ
  pub max_ips : ℕ
  pub max_accounts : ℕ
  pub entry_ttl : ℕ
  pub cleanup_interval : ℕ

pub record Decision : Type 0 where
  pub allowed : Bool
  pub delay : ℕ
  pub retry_after : ℕ

pub record Bucket : Type 0 where
  pub tokens : ℕ
  pub last : Time

pub record IpEntry : Type 0 where
  pub bucket : Bucket
  pub last_access : Time

pub record AccountEntry : Type 0 where
  pub failures : ℕ
  pub last_access : Time

pub record Limiter : Type 0 where
  pub config : Config
  pub global : Bucket
  pub ips : LruMap IpEntry
  pub accounts : LruMap AccountEntry
  pub next_cleanup : Time

abbrev pub default_config : Config
default_config = record {
  global_burst = 30;
  global_refill = second;
  ip_burst = 10;
  ip_refill = 90 * second;
  max_ips = 4096;
  max_accounts = 1024;
  entry_ttl = 30 * minute;
  cleanup_interval = minute;
}

-- The values that a caller gives, of any sign.
pub record GivenConfig : Type 0 where
  pub global_burst : ℤ
  pub global_refill : ℤ
  pub ip_burst : ℤ
  pub ip_refill : ℤ
  pub max_ips : ℤ
  pub max_accounts : ℤ
  pub entry_ttl : ℤ
  pub cleanup_interval : ℤ

abbrev or_default : ℤ → ℕ → ℕ
or_default given default = if leb_ℤ given (pos 0) then default else pos_part given

-- The first half of `NewWithClock`.
unfoldable pub with_defaults : GivenConfig → Config
with_defaults g = record {
  global_burst = or_default g.global_burst default_config.global_burst;
  global_refill = or_default g.global_refill default_config.global_refill;
  ip_burst = or_default g.ip_burst default_config.ip_burst;
  ip_refill = or_default g.ip_refill default_config.ip_refill;
  max_ips = or_default g.max_ips default_config.max_ips;
  max_accounts = or_default g.max_accounts default_config.max_accounts;
  entry_ttl = or_default g.entry_ttl default_config.entry_ttl;
  cleanup_interval = or_default g.cleanup_interval default_config.cleanup_interval;
}

-- The second half of `NewWithClock`.
unfoldable pub new_limiter : Config → Time → Limiter
new_limiter c now = record {
  config = c;
  global = record { tokens = c.global_burst * c.global_refill; last = now };
  ips = empty_lru;
  accounts = empty_lru;
  next_cleanup = now + c.cleanup_interval;
}

unfoldable pub refill : ℕ → ℕ → Time → Bucket → Bucket
refill capacity interval now b =
    if before now b.last
    then record b { last = now }
    else record { tokens = min (b.tokens + (now - b.last)) (capacity * interval); last = now }

unfoldable pub time_to_token : ℕ → ℕ → ℕ
time_to_token tokens interval = interval - tokens

unfoldable pub failure_delay : ℕ → ℕ
failure_delay failures =
    if ltb failures 5
    then 0
    else (if failures == 5
        then 250000000
        else (if failures == 6 then 500000000 else (if failures == 7 then second else 2 * second)))

unfoldable pub cleanup : Time → Limiter → Limiter
unfolding drop_old
cleanup now l = if before now l.next_cleanup then l else record l {
  ips = drop_old (λ e. e.last_access) l.config.entry_ttl now l.ips.entries l.ips.order;
  accounts =
      drop_old (λ e. e.last_access) l.config.entry_ttl now l.accounts.entries l.accounts.order;
  next_cleanup = now + l.config.cleanup_interval;
}

unfoldable pub ip_entry : String → Time → Limiter → LruMap IpEntry × IpEntry
unfolding obtain find
ip_entry key now l =
    obtain l.config.max_ips key
      (record {
        bucket = record { tokens = l.config.ip_burst * l.config.ip_refill; last = now };
        last_access = now;
      })
      (λ e. record e { last_access = now }) l.ips (find key l.ips.entries)

unfoldable pub account_entry : String → Time → Limiter → LruMap AccountEntry × AccountEntry
unfolding obtain find
account_entry key now l =
    obtain l.config.max_accounts key (record { failures = 0; last_access = now })
      (λ e. record e { last_access = now }) l.accounts (find key l.accounts.entries)

-- One token less.
abbrev pub spend : ℕ → Bucket → Bucket
spend interval b = record b { tokens = b.tokens - interval }

-- The longer one of the waits for a token of each bucket that lacks it.
unfoldable pub retry_after : Config → ℕ → ℕ → ℕ
unfolding time_to_token
retry_after c global ip =
    let first = if ltb global c.global_refill then time_to_token global c.global_refill else 0 in
    if ltb ip c.ip_refill then max first (time_to_token ip c.ip_refill) else first

-- The end of `Allow`, with both buckets refilled; `ips` holds the address's entry.
unfoldable pub decide :
    String → String → Time → Limiter → Bucket → LruMap IpEntry → IpEntry → Limiter × Decision
unfolding update retry_after account_entry failure_delay
decide ip user now l global ips e =
    let c = l.config in
    if ltb global.tokens c.global_refill || ltb e.bucket.tokens c.ip_refill
    then (
      record l { global = global; ips = record ips { entries = update ip e ips.entries } },
      record {
        allowed = false;
        delay = 0;
        retry_after = retry_after c global.tokens e.bucket.tokens;
      },
    )
    else (let (accounts, a) = account_entry user now l in
        (
          record l {
            global = spend c.global_refill global;
            ips = record ips {
              entries = update ip (record e { bucket = spend c.ip_refill e.bucket }) ips.entries;
            };
            accounts = accounts;
          },
          record { allowed = true; delay = failure_delay a.failures; retry_after = 0 },
        ))

-- `Allow`, with the address and the name as the source prepares them: without spaces around, the
-- name in small letters.
unfoldable pub allow : String → String → Time → Limiter → Limiter × Decision
unfolding cleanup refill ip_entry decide
allow ip0 user now l0 =
    let l = cleanup now l0 in
    let c = l.config in
    let ip = if ip0 =? "" then "unknown" else ip0 in
    let global = refill c.global_burst c.global_refill now l.global in
    let (ips, e) = ip_entry ip now l in
    decide ip user now l global ips
      (record e { bucket = refill c.ip_burst c.ip_refill now e.bucket })

-- `Fail`
unfoldable pub fail : String → Time → Limiter → Limiter
unfolding account_entry update
fail user now l =
    let (accounts, a) = account_entry user now l in
    record l {
      accounts = record accounts {
        entries =
            update user (if ltb a.failures 1000 then record a { failures = suc a.failures } else a)
              accounts.entries;
      };
    }

-- What `Success` does with what it finds.
unfoldable pub forget_found : String → Limiter → Option AccountEntry → Limiter
unfolding erase remove
forget_found user l none = l
forget_found user l (some a) = record l {
  accounts = record {
    entries = erase user l.accounts.entries;
    order = remove user l.accounts.order;
  };
}

-- `Success`
unfoldable pub success : String → Limiter → Limiter
unfolding find forget_found
success user l = forget_found user l (find user l.accounts.entries)
