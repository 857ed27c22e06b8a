-- ===== src/AuthBroker/Access.antt =====
-- cmd/authbroker/main.go: what stands before the handlers: the proxy's address, the limiter of
-- attempts, the wait it asks for, the gate of the password hash, and the answers of too many attempts.
use collator.Prelude.{
  ℕ, ◌+◌, ◌-◌, ◌/◌, ◌%◌, two64, second, List, [], ◌∷◌, Bool, true, false, not, ◌&&◌, ◌||◌, ltb,
  ◌==◌, if◌then◌else◌, Option, none, some, String, ◌=?◌, trim_space, to_lower, take,
}
use collator.Model.{Result, ok, err, Evidence}
use collator.Store.{AuditRow}
use collator.AuthLimit.{Decision, allow}
use collator.Store.Ids.{new_id}
use collator.Auth.{Bytes, Crypto, same_bytes, random_token}
use collator.AuthBroker.State.{
  Tables, Server, status, Response, at_limit, insert_audit, ping, audit_bytes, Request, Net, answer,
  failure, no_answer,
}
use collator.AuthBroker.Flow.{go, done, Handler, ◌>>◌, respond, pure, respond_if, or_respond}

-- The name as `Allow`, `Fail` and `Success` take it.
unfoldable pub limiter_name : String → String
unfolding trim_space to_lower
limiter_name name = to_lower (trim_space name)

abbrev is_some {ℓ} : {A : Type ℓ} → Option A → Bool
is_some none = false
is_some (some a) = true

-- `clientIP`
unfoldable pub client_ip : Net → Request → Option String
unfolding trim_space
client_ip net request =
    let value = trim_space request.real_ip in
    if is_some (net.parse_ip value) then some value else none

-- `peer.IsLoopback()` of the 16 bytes of an address.
unfoldable pub is_loopback : Bytes → Bool
unfolding same_bytes
is_loopback ip =
    same_bytes (take 13 ip) (0 ∷ 0 ∷ 0 ∷ 0 ∷ 0 ∷ 0 ∷ 0 ∷ 0 ∷ 0 ∷ 0 ∷ 255 ∷ 255 ∷ 127 ∷ [])
    || same_bytes ip (0 ∷ 0 ∷ 0 ∷ 0 ∷ 0 ∷ 0 ∷ 0 ∷ 0 ∷ 0 ∷ 0 ∷ 0 ∷ 0 ∷ 0 ∷ 0 ∷ 0 ∷ 1 ∷ [])

unfoldable pub is_one_of : Bytes → List Bytes → Bool
unfolding same_bytes
is_one_of peer [] = false
is_one_of peer (address ∷ addresses) = same_bytes peer address || is_one_of peer addresses

unfoldable pub is_proxy : Bytes → Result (List Bytes) → Bool
unfolding is_one_of
is_proxy peer (ok addresses) = is_one_of peer addresses
is_proxy peer (err e) = false

unfoldable pub is_trusted_peer : Request → Option Bytes → Bool
unfolding is_loopback is_proxy
is_trusted_peer request none = false
is_trusted_peer request (some peer) =
    request.path =? "/healthz" && is_loopback peer || is_proxy peer request.resolves

abbrev pub parsed_host : Net → Option String → Option Bytes
parsed_host net none = none
parsed_host net (some host) = net.parse_ip host

-- `caddyOnly`
unfoldable pub caddy_only : Net → Request → Handler Response → Handler Response
unfolding is_trusted_peer
caddy_only net request next =
    if is_trusted_peer request (parsed_host net (net.split_host request.remote_address))
    then next
    else respond (failure 403 "untrusted_proxy")

-- The seconds that `tooMany` sends.
unfoldable pub retry_seconds : ℕ → ℕ
retry_seconds retry_after =
    let seconds = (retry_after + second - 1) / second in if ltb seconds 1 then 1 else seconds

abbrev increment : ℕ → ℕ
increment n = (n + 1) % two64

-- `s.denied.total.Add(1)`
unfoldable pub count_denied : Server → Server
count_denied s = record s { denied_total = increment s.denied_total }

-- `tooMany`
unfoldable pub too_many {ℓ} : {A : Type ℓ} → ℕ → Handler A
unfolding retry_seconds count_denied
too_many retry_after s =
    let counted = count_denied s in
    (
      done (record (failure 429 "too_many_attempts") {
        retry_after = some (retry_seconds retry_after);
      }),
      record counted { denied_rate_limited = increment s.denied_rate_limited },
    )

unfoldable pub decided : Decision → Handler ℕ
unfolding too_many
decided d = if d.allowed then pure d.delay else too_many d.retry_after

unfoldable pub limit_address : Request → String → Option String → Handler ℕ
unfolding decided allow trim_space
limit_address request name none s = (done (failure 400 "invalid_client_address"), s)
limit_address request name (some ip) s =
    let (limiter, decision) =
      allow (trim_space ip) (limiter_name name) (request.clock at_limit) s.limiter in
    decided decision (record s { limiter = limiter })

-- `rateLimit`
unfoldable pub rate_limit : Net → Request → String → Handler ℕ
unfolding client_ip limit_address
rate_limit net request name = limit_address request name (client_ip net request)

-- `wait`, and the return if it was cut short.
unfoldable pub wait : Request → ℕ → Handler (Unit {0})
wait request duration = respond_if (not (duration == 0) && not request.waits_out) no_answer

-- `acquireHash` and `releaseHash`
abbrev pub gate_places : ℕ
gate_places = 2

unfoldable pub acquire_hash : Server → Bool × Server
acquire_hash s =
    if ltb s.hashing gate_places then (true, record s { hashing = s.hashing + 1 }) else (false, s)

unfoldable pub release_hash : Server → Server
release_hash s = record s { hashing = s.hashing - 1 }

-- `if !s.acquireHash() { s.tooMany(w, time.Second); return }`
unfoldable pub enter_gate : Handler (Unit {0})
unfolding acquire_hash too_many
enter_gate s =
    let (entered, next) = acquire_hash s in if entered then (go tt, next) else too_many second next

-- The insert of `Audit`, whose own failure is dropped.
abbrev pub logged : Result (Unit {0}) → AuditRow → Tables → Tables
logged (ok _) row t = record t { audits = row ∷ t.audits }
logged (err e) row t = t

abbrev pub audited :
    Request → String → String → String → Evidence → Result String → Handler (Unit {0})
audited request action actor result details (ok id) s = (
  go tt,
  record s {
    tables =
        logged (request.fail insert_audit)
          (record { id = id; action = action; actor = actor; result = result; details = details })
          s.tables;
  },
)
audited request action actor result details (err e) s = (done no_answer, s)

-- `Audit` of internal/store/store.go: without randomness for its id it panics.
unfoldable pub audit : Crypto → Request → String → String → String → Evidence → Handler (Unit {0})
unfolding random_token new_id
audit c request action actor result details =
    audited request action actor result details (new_id c "aud" (request.random audit_bytes))

-- `health`, with what the action broker answers.
unfoldable pub health : Request → Result (Unit {0}) → Handler Response
health request controller = do
  or_respond (request.fail ping) (answer 503 (status "database_unavailable"))
  or_respond controller (answer 503 (status "controller_unavailable"))
  pure (answer 200 (status "ok"))
