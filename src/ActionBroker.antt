-- ===== src/ActionBroker.antt =====
-- internal/actionbroker/actionbroker.go: the memory of the verifier, by which a signed request is
-- accepted once, and below it the check of a signed request.
pub mod Memory
pub mod Replay
pub mod Verify
pub mod Once
pub mod Examples
use collator.Prelude.{
  ℕ, zero, suc, ◌+◌, ◌-◌, Time, minute, before, List, [], ◌∷◌, ◌++◌, length, Bool, true, false,
  ◌||◌, leb, if◌then◌else◌, String, ◌=?◌,
}

-- `nonceEntry`
pub record NonceEntry : Type 0 where
  pub value : String
  pub at : Time

-- The map and the order of arrival, oldest first.
pub record Verifier : Type 0 where
  pub nonces : List (String × Time)
  pub order : List NonceEntry

-- `NewVerifierWithClock`
abbrev pub new_verifier : Verifier
new_verifier = record { nonces = []; order = [] }

abbrev pub ttl : ℕ
ttl = 120000000000

abbrev pub max_nonce : ℕ
max_nonce = 1024

unfoldable pub has_nonce : String → List (String × Time) → Bool
has_nonce n [] = false
has_nonce n ((k, t) ∷ m) = k =? n || has_nonce n m

-- `delete(v.nonces, ...)`
unfoldable pub delete : String → List (String × Time) → List (String × Time)
delete n [] = []
delete n ((k, t) ∷ m) = let rest = delete n m in if k =? n then rest else (k, t) ∷ rest

-- The first loop: what is older than `ttl` goes. `entry.at.Before(now.Add(-v.ttl))`
unfoldable pub forget : Time → List (String × Time) → List NonceEntry → Verifier
unfolding delete
forget now m [] = record { nonces = m; order = [] }
forget now m (e ∷ es) =
    let later = forget now (delete e.value m) es in
    let rest = forget now m es in
    if before (e.at + ttl) now
    then later
    else record { nonces = rest.nonces; order = e ∷ rest.order }

-- The second loop: the oldest go, until there is room.
unfoldable pub evict : List (String × Time) → List NonceEntry → Verifier
unfolding delete
evict m [] = record { nonces = m; order = [] }
evict m (e ∷ es) =
    let rest = evict (delete e.value m) es in
    if leb max_nonce (length (e ∷ es)) then rest else record { nonces = m; order = e ∷ es }

unfoldable pub insert : String → Time → Verifier → Verifier
insert n now v = record {
  nonces = (n, now) ∷ v.nonces;
  order = v.order ++ record { value = n; at = now } ∷ [];
}

-- `remember`
unfoldable pub remember : String → Time → Verifier → Verifier × Bool
unfolding forget has_nonce evict insert
remember n now v =
    let w = forget now v.nonces v.order in
    if has_nonce n w.nonces then (w, false) else (insert n now (evict w.nonces w.order), true)
