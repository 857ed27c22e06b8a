-- ===== src/AuthBroker/Login.antt =====
-- cmd/authbroker/main.go: `loadUser` and `login`. The login comes in two parts, between which other
-- requests may run: `check_login` up to the tokens, `commit_login` with the transaction. The hash that
-- is checked for an unknown name only takes its time.
use collator.Prelude.{
  ℕ, suc, ◌+◌, ◌*◌, ℤ, pos, Time, hour, List, [], ◌∷◌, Bool, true, false, not, ◌&&◌, ◌||◌,
  if◌then◌else◌, Option, none, some, String, ◌=?◌, trim_space, to_upper,
}
use collator.Model.{
  Error, plain, no_rows, recovery_code_consumed, is_no_rows, Result, ok, err, ◌>>=◌ as bind,
  ◌>>◌ as both,
}
use collator.AuthLimit.{fail, success}
use collator.Auth.{Crypto, hash_token, random_token, decrypt_secret}
use collator.Auth.Password.{verify_password}
use collator.Auth.Totp.{validate_totp}
use collator.AuthBroker.State.{
  User, Session, Tables, Config, Server, Account, Cookie, Body, Response, at_check, at_session,
  at_fail, load_user, begin, lock_codes, update_codes, insert_session, commit, session_token,
  csrf_token, Request, Net, answer, failure,
}
use collator.AuthBroker.Flow.{
  go, done, Handler, ◌>>=◌, ◌>>◌, respond, pure, current, modify, or_respond,
}
use collator.AuthBroker.Access.{
  limiter_name, count_denied, rate_limit, wait, enter_gate, release_hash, audit,
}

pub record Credentials : Type 0 where
  pub username : String
  pub password : String
  pub totp : String

-- The one row with a name that is active.
unfoldable pub find_active : String → List User → Option User
find_active name [] = none
find_active name (u ∷ us) = if u.username =? name && u.active then some u else find_active name us

abbrev pub row_of {ℓ} : {A : Type ℓ} → Option A → Result A
row_of none = err no_rows
row_of (some a) = ok a

abbrev pub decoded : Option (List String) → Result (List String)
decoded none = err (plain "json")
decoded (some hashes) = ok hashes

-- The row as the handlers see it: the hashes read, the secret decrypted.
unfoldable pub open_account : Crypto → Config → User → Result Account
unfolding decrypt_secret
open_account c config u = bind (decoded u.recovery_hashes) (λ recovery.
    bind (decrypt_secret c config.encryption_key u.totp_secret) (λ secret. ok (record {
      id = u.id;
      username = u.username;
      password_hash = u.password_hash;
      totp_secret = secret;
      recovery = recovery;
    })))

-- `loadUser`
unfoldable pub load_account : Crypto → Request → Server → String → Result Account
unfolding find_active open_account
load_account c request s name =
    both (request.fail load_user)
      (bind (row_of (find_active name s.tables.users)) (open_account c s.config))

unfoldable pub check_password : Crypto → String → Result Account → Result Account
unfolding verify_password
check_password c password (ok x) =
    if verify_password c x.password_hash password then ok x else err no_rows
check_password c password (err e) = err e

-- The answer to an error that is not `sql.ErrNoRows`; with that one, the login goes on without an
-- account.
unfoldable pub found_account : Result Account → Handler (Option Account)
unfolding is_no_rows
found_account (ok x) s = (go (some x), s)
found_account (err e) s = if is_no_rows e then (go none, s) else (done (failure 500 "database"), s)

-- The hash that a recovery code is kept as.
unfoldable pub recovery_hash : Crypto → String → String
unfolding hash_token to_upper trim_space
recovery_hash c code = hash_token c (to_upper (trim_space code))

unfoldable pub index_of : String → List String → Option ℕ
index_of hash [] = none
index_of hash (item ∷ items) =
    let later = index_of hash items in
    if hash =? item then some 0 else elim later [ none ↦ none | some i ↦ some (suc i) ]

-- What stood for the second factor.
pub data Factor : Type 0 where
  totp_code : Factor
  recovery_code : ℕ → Factor

abbrev as_recovery_code : Option ℕ → Option Factor
as_recovery_code none = none
as_recovery_code (some i) = some (recovery_code i)

unfoldable pub second_factor : Crypto → Account → String → Time → Option Factor
unfolding validate_totp recovery_hash index_of
second_factor c x code now =
    if validate_totp c x.totp_secret code now
    then some totp_code
    else as_recovery_code (index_of (recovery_hash c code) x.recovery)

-- A refused login.
unfoldable pub deny {ℓ} : {A : Type ℓ} → Request → String → Handler A
unfolding count_denied limiter_name fail
deny request name s = (
  done (failure 401 "invalid_credentials"),
  count_denied (record s { limiter = fail (limiter_name name) (request.clock at_fail) s.limiter }),
)

-- A login that has passed every check but holds no session yet.
pub record Pending : Type 0 where
  pub account : Account
  pub factor : Factor
  pub session : String
  pub csrf : String

abbrev pub with_factor : Account → Option Factor → Option (Account × Factor)
with_factor x none = none
with_factor x (some factor) = some (x, factor)

unfoldable pub factor_of :
    Crypto → Request → Credentials → Option Account → Option (Account × Factor)
unfolding second_factor
factor_of c request given none = none
factor_of c request given (some x) =
    with_factor x (second_factor c x given.totp (request.clock at_check))

unfoldable pub passed : Request → String → Option (Account × Factor) → Handler (Account × Factor)
unfolding deny
passed request name none = deny request name
passed request name (some granted) = pure granted

-- The check of the password inside the gate.
unfoldable pub checked_account : Crypto → Request → Credentials → Handler (Option Account)
unfolding load_account check_password found_account release_hash
checked_account c request given s =
    found_account (check_password c given.password (load_account c request s given.username))
      (release_hash s)

unfoldable pub check_login : Crypto → Net → Request → Credentials → Handler Pending
unfolding rate_limit wait enter_gate checked_account factor_of passed random_token
check_login c net request given = do
  delay ← rate_limit net request given.username
  wait request delay
  enter_gate
  found ← checked_account c request given
  (x, factor) ← passed request given.username (factor_of c request given found)
  session ← or_respond (random_token c (request.random session_token)) (failure 500 "internal")
  csrf ← or_respond (random_token c (request.random csrf_token)) (failure 500 "internal")
  pure (record { account = x; factor = factor; session = session; csrf = csrf })

-- `SELECT recovery_hashes FROM users WHERE id=$1 FOR UPDATE`
unfoldable pub find_id : String → List User → Option User
find_id id [] = none
find_id id (u ∷ us) = if u.id =? id then some u else find_id id us

unfoldable pub set_recovery : String → List String → List User → List User
set_recovery id hashes [] = []
set_recovery id hashes (u ∷ us) =
    let rest = set_recovery id hashes us in
    if u.id =? id then record u { recovery_hashes = some hashes } ∷ rest else u ∷ rest

-- `append(current[:matched], current[matched+1:]...)`, `none` where the hash is not there any more.
unfoldable pub take_out : String → List String → Option (List String)
take_out hash [] = none
take_out hash (item ∷ items) =
    let later = take_out hash items in
    if hash =? item then some items else elim later [ none ↦ none | some rest ↦ some (item ∷ rest) ]

-- A column that is no list reads as an empty one: its error is overwritten.
abbrev pub hashes_of : Option (List String) → List String
hashes_of none = []
hashes_of (some hashes) = hashes

abbrev pub not_consumed : Option (List String) → Result (List String)
not_consumed none = err recovery_code_consumed
not_consumed (some rest) = ok rest

unfoldable pub consume : Crypto → Request → Account → String → Tables → Result Tables
unfolding find_id take_out recovery_hash set_recovery
consume c request x code t = both (request.fail lock_codes) (
    bind (row_of (find_id x.id t.users)) (λ u.
      bind (not_consumed (take_out (recovery_hash c code) (hashes_of u.recovery_hashes))) (λ rest.
        both (request.fail update_codes)
          (ok (record t { users = set_recovery x.id rest t.users })))))

abbrev pub consumed_by : Crypto → Request → Factor → Account → String → Tables → Result Tables
consumed_by c request totp_code x code t = ok t
consumed_by c request (recovery_code i) x code t = consume c request x code t

unfoldable pub consume_if : Crypto → Request → Pending → String → Tables → Result Tables
unfolding consume
consume_if c request p code t = consumed_by c request p.factor p.account code t

unfoldable pub token_taken : String → List Session → Bool
token_taken hash [] = false
token_taken hash (x ∷ xs) = x.token_hash =? hash || token_taken hash xs

unfoldable pub is_user : String → List User → Bool
is_user id [] = false
is_user id (u ∷ us) = u.id =? id || is_user id us

abbrev pub session_time : ℕ
session_time = 12 * hour

unfoldable pub new_session : Crypto → Request → Pending → Session
unfolding hash_token
new_session c request p = record {
  token_hash = hash_token c p.session;
  user_id = p.account.id;
  csrf_hash = hash_token c p.csrf;
  expires_at = request.clock at_session + session_time;
}

-- The insert of the session, with the primary key and the reference to the user.
unfoldable pub add_session : Crypto → Request → Pending → Tables → Result Tables
unfolding hash_token token_taken is_user new_session
add_session c request p t = both (request.fail insert_session) (
    if token_taken (hash_token c p.session) t.sessions || not (is_user p.account.id t.users)
    then err (plain "constraint")
    else ok (record t { sessions = new_session c request p ∷ t.sessions }))

-- The body of the transaction.
unfoldable pub login_body : Crypto → Request → Pending → String → Tables → Result Tables
unfolding consume_if add_session
login_body c request p code t =
    both (request.fail begin) (bind (consume_if c request p code t) (add_session c request p))

abbrev pub is_consumed : Error → Bool
is_consumed recovery_code_consumed = true
is_consumed other = false

abbrev pub session_cookie_of : Config → String → ℤ → Cookie
session_cookie_of config value max_age = record {
  value = value;
  max_age = max_age;
  http_only = true;
  secure = config.cookie_secure;
  same_site_strict = true;
}

-- How the transaction ends.
unfoldable pub end_login : Request → Credentials → Result Tables → Handler (Unit {0})
unfolding deny
end_login request given (err e) =
    if is_consumed e then deny request given.username else respond (failure 500 "database")
end_login request given (ok t) = do
  or_respond (request.fail commit) (failure 500 "database")
  modify (λ s. record s { tables = t })

-- What comes after the commit: the cookie, the token, the counters, the audit log.
unfoldable pub opened : Crypto → Request → Credentials → Pending → Config → Handler Response
unfolding limiter_name success audit
opened c request given p config = do
  modify (λ s. record s { limiter = success (limiter_name given.username) s.limiter })
  audit c request "session.login" p.account.username "success" []
  pure (record (answer 200 (Body.username p.account.username)) {
    cookie = some (session_cookie_of config p.session (pos 43200));
    csrf_token = some p.csrf;
  })

unfoldable pub commit_login : Crypto → Request → Credentials → Pending → Handler Response
unfolding login_body end_login opened
commit_login c request given p = do
  s ← current
  end_login request given (login_body c request p given.totp s.tables)
  opened c request given p s.config

abbrev pub read_json {ℓ} : {A : Type ℓ} → Option A → Handler A
read_json none s = (done (failure 400 "invalid_request"), s)
read_json (some a) s = (go a, s)

-- `login`, with what `readJSON` makes of the body.
unfoldable pub login : Crypto → Net → Request → Option Credentials → Handler Response
unfolding check_login commit_login
login c net request body = do
  given ← read_json body
  p ← check_login c net request given
  commit_login c request given p
