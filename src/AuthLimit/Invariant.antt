-- ===== src/AuthLimit/Invariant.antt =====
-- The invariant of the limiter.
use collator.Prelude.{
  arith, ◌<◌, Time, before, ltb, ◌||◌, if◌then◌else◌, Option, none, some, String, ◌=?◌, Bool-cases,
  inl, inr,
}
use collator.AuthLimit.Lru.{LruMap, find}
use collator.AuthLimit.Bounded.{
  Bounded, empty-Bounded, obtain-Bounded, update-Bounded, erase-Bounded, drop_old-Bounded,
}
use collator.AuthLimit.{
  Bucket, IpEntry, GivenConfig, with_defaults, AccountEntry, Limiter, new_limiter, cleanup,
  ip_entry, account_entry, decide, allow, fail, success, forget_found,
}

-- Both maps in order and within their limits, which are positive.
pub record IsValid (l : Limiter) : Type 0 where
  pub limits : (0 < l.config.max_ips) × (0 < l.config.max_accounts)
  pub addresses : Bounded l.config.max_ips l.ips
  pub names : Bounded l.config.max_accounts l.accounts

cleanup-IsValid : (now : Time) (l : Limiter) → IsValid l → IsValid (cleanup now l)
unfolding cleanup
cleanup-IsValid now l v = elim (Bool-cases (before now l.next_cleanup)) [
  | inl early ↦ rw early v
  | inr due ↦ rw due (record {
    limits = v.limits;
    addresses = drop_old-Bounded _ l.config.entry_ttl now l.config.max_ips l.ips v.addresses;
    names = drop_old-Bounded _ l.config.entry_ttl now l.config.max_accounts l.accounts v.names;
  })
]

ip_entry-Bounded :
    (key : String) (now : Time) (l : Limiter)
    → IsValid l
    → Bounded l.config.max_ips (ip_entry key now l).0
unfolding ip_entry
ip_entry-Bounded key now l v = obtain-Bounded l.config.max_ips key _ _ l.ips v.limits.0 v.addresses

account_entry-Bounded :
    (key : String) (now : Time) (l : Limiter)
    → IsValid l
    → Bounded l.config.max_accounts (account_entry key now l).0
unfolding account_entry
account_entry-Bounded key now l v =
    obtain-Bounded l.config.max_accounts key _ _ l.accounts v.limits.1 v.names

decide-IsValid :
    (ip user : String) (now : Time) (l : Limiter) (global : Bucket) (ips : LruMap IpEntry)
    (e : IpEntry)
    → IsValid l
    → Bounded l.config.max_ips ips
    → IsValid (decide ip user now l global ips e).0
unfolding decide
decide-IsValid ip user now l global ips e v b =
    elim (Bool-cases
      (ltb global.tokens l.config.global_refill || ltb e.bucket.tokens l.config.ip_refill)) [
        | inl short ↦ rw short (record {
          limits = v.limits;
          addresses = update-Bounded l.config.max_ips ip e ips b;
          names = v.names;
        })
        | inr full ↦ rw full (record {
          limits = v.limits;
          addresses = update-Bounded l.config.max_ips ip _ ips b;
          names = account_entry-Bounded user now l v;
        })
      ]

forget_found-IsValid :
    (user : String) (l : Limiter) (o : Option AccountEntry)
    → IsValid l
    → IsValid (forget_found user l o)
unfolding forget_found
forget_found-IsValid user l none v = v
forget_found-IsValid user l (some a) v = record {
  limits = v.limits;
  addresses = v.addresses;
  names = erase-Bounded l.config.max_accounts user l.accounts v.names;
}

positive_limits :
    (g : GivenConfig) → (0 < (with_defaults g).max_ips) × (0 < (with_defaults g).max_accounts)
unfolding with_defaults
positive_limits g = (ground arith, ground arith)

-- The limiter starts valid, whatever configuration it is given, and every call keeps it valid: its two
-- maps and their lists of recent use have the same keys, each once, and neither map outgrows its
-- limit, which is positive.
pub limiter-IsValid :
    (ip user : String) (now : Time) (given : GivenConfig) (l : Limiter)
    → IsValid l
    → IsValid (new_limiter (with_defaults given) now)
      × IsValid (allow ip user now l).0
      × IsValid (fail user now l)
      × IsValid (success user l)
unfolding new_limiter allow fail success
limiter-IsValid ip0 user now given l v = (
  record {
    limits = positive_limits given;
    addresses = empty-Bounded (with_defaults given).max_ips;
    names = empty-Bounded (with_defaults given).max_accounts;
  },
  (let k = cleanup now l in
      let w = cleanup-IsValid now l v in
      let ip = if ip0 =? "" then "unknown" else ip0 in
      decide-IsValid ip user now k _ (ip_entry ip now k).0 _ w (ip_entry-Bounded ip now k w)),
  record {
    limits = v.limits;
    addresses = v.addresses;
    names = update-Bounded l.config.max_accounts user _ _ (account_entry-Bounded user now l v);
  },
  forget_found-IsValid user l (find user l.accounts.entries) v,
)
