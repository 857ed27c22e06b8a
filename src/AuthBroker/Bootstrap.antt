-- ===== src/AuthBroker/Bootstrap.antt =====
-- cmd/authbroker/main.go: the first administrator: `bootstrapStatus`, `bootstrapStart` and
-- `bootstrapConfirm`.
use collator.Prelude.{
  ℕ, ◌+◌, List, [], ◌∷◌, filterb, Bool, true, false, not, ◌&&◌, ◌||◌, ltb, ◌==◌, if◌then◌else◌,
  Option, none, some, String, ◌=?◌, utf8,
}
use collator.Model.{plain, Result, ok, err, ◌>>=◌ as bind, ◌>>◌ as both}
use collator.Store.Ids.{new_id}
use collator.AuthLimit.{success}
use collator.Auth.{Bytes, Crypto, same_bytes, encrypt_secret, decrypt_secret}
use collator.Auth.Password.{hash_password}
use collator.Auth.Policy.{valid_username, valid_password}
use collator.Auth.Totp.{validate_totp, generate_totp_secret, recovery_codes, totp_uri}
use collator.AuthBroker.State.{
  User, Session, Tables, Config, status, needs_bootstrap, enrolled, Response, at_check,
  count_active, begin, commit, delete_pending, insert_user, load_pending, activate, id_bytes, salt,
  totp_secret, nonce, Request, Net, answer, failure, no_answer,
}
use collator.AuthBroker.Flow.{
  go, done, Handler, ◌>>=◌, ◌>>◌, pure, current, modify, respond_if, or_respond,
}
use collator.AuthBroker.Access.{
  limiter_name, count_denied, rate_limit, wait, enter_gate, release_hash, audit,
}
use collator.AuthBroker.Login.{read_json, row_of}

pub record Enrolment : Type 0 where
  pub token : String
  pub username : String
  pub password : String

pub record Confirmation : Type 0 where
  pub token : String
  pub username : String
  pub totp : String

unfoldable pub active_count : List User → ℕ
active_count [] = 0
active_count (u ∷ us) = (if u.active then 1 else 0) + active_count us

-- `bootstrapStatus`
unfoldable pub bootstrap_status : Request → Handler Response
unfolding active_count
bootstrap_status request = do
  or_respond (request.fail count_active) (failure 500 "database")
  s ← current
  pure (answer 200 (needs_bootstrap (active_count s.tables.users == 0)))

-- `checkBootstrap`
unfoldable pub check_bootstrap : Config → String → Bool
unfolding same_bytes utf8
check_bootstrap config value = same_bytes (utf8 value) (utf8 config.bootstrap_token)

-- A request with a wrong token is counted.
unfoldable pub require_token : String → Handler (Unit {0})
unfolding check_bootstrap count_denied
require_token token s =
    if check_bootstrap s.config token
    then (go tt, s)
    else (done (failure 403 "invalid_bootstrap_token"), count_denied s)

-- The hash of the new password, inside the gate.
unfoldable pub new_hash : Crypto → Request → String → Handler Bytes
unfolding enter_gate release_hash hash_password
new_hash c request password = do
  enter_gate
  modify release_hash
  or_respond (hash_password c password (request.random salt)) (failure 500 "internal")

abbrev pub name_taken : String → List User → Bool
name_taken name [] = false
name_taken name (u ∷ us) = u.username =? name || name_taken name us

abbrev pub id_taken : String → List User → Bool
id_taken id [] = false
id_taken id (u ∷ us) = u.id =? id || id_taken id us

-- `DELETE FROM sessions` of the users that go: the reference cascades.
abbrev of_kept : List User → Session → Bool
of_kept users x = id_taken x.user_id users

-- The keys of the table.
abbrev pub is_new : User → List User → Result (Unit {0})
is_new u kept =
    if name_taken u.username kept || id_taken u.id kept then err (plain "duplicate key") else ok tt

-- The transaction: the users that never confirmed go, the new one comes.
unfoldable pub enrol : Request → User → Tables → Result Tables
enrol request u t =
    let kept = filterb (λ v. v.active) t.users in
    both (request.fail begin) (
      both (request.fail delete_pending) (
        both (request.fail insert_user) (
          both (is_new u kept) (
            both (request.fail commit)
              (ok (record t { users = u ∷ kept; sessions = filterb (of_kept kept) t.sessions }))))))

abbrev pub stored : Result Tables → Handler (Unit {0})
stored (ok t) s = (go tt, record s { tables = t })
stored (err e) s = (done (failure 500 "database"), s)

unfoldable pub enrol_now : Request → User → Handler (Unit {0})
unfolding enrol
enrol_now request u s = stored (enrol request u s.tables) s

-- What the new user is made of.
unfoldable pub make_user :
    Crypto → Request → Config → Enrolment → Bytes → Handler (User × Bytes × List String)
unfolding generate_totp_secret encrypt_secret recovery_codes new_id
make_user c request config given hash = do
  secret ← or_respond (generate_totp_secret c (request.random totp_secret)) (failure 500 "internal")
  sealed ←
      or_respond (encrypt_secret c config.encryption_key secret (request.random nonce))
        (failure 500 "encryption")
  (codes, hashes) ← or_respond (recovery_codes c request.recovery_draws) (failure 500 "internal")
  id ← or_respond (new_id c "usr" (request.random id_bytes)) (failure 500 "internal")
  pure (
    record {
      id = id;
      username = given.username;
      password_hash = hash;
      totp_secret = sealed;
      recovery_hashes = some hashes;
      active = false;
    },
    secret,
    codes,
  )

-- The checks of `bootstrapStart` before anything is made.
unfoldable pub may_enrol : Net → Request → Enrolment → Handler (Unit {0})
unfolding rate_limit wait require_token active_count valid_username valid_password
may_enrol net request given = do
  delay ← rate_limit net request given.username
  wait request delay
  require_token given.token
  or_respond (request.fail count_active) (failure 500 "database")
  s ← current
  respond_if (ltb 0 (active_count s.tables.users)) (failure 409 "already_bootstrapped")
  respond_if (not (valid_username given.username) || not (valid_password given.password))
      (failure 400 "username_or_password_policy")

unfoldable pub bootstrap_start : Crypto → Net → Request → Option Enrolment → Handler Response
unfolding may_enrol new_hash make_user enrol_now audit totp_uri
bootstrap_start c net request body = do
  given ← read_json body
  may_enrol net request given
  hash ← new_hash c request given.password
  s ← current
  (u, secret, codes) ← make_user c request s.config given hash
  enrol_now request u
  audit c request "admin.bootstrap.start" given.username "success" []
  pure (answer 201 (enrolled secret (totp_uri secret given.username) codes))

unfoldable pub find_pending : String → List User → Option User
find_pending name [] = none
find_pending name (u ∷ us) =
    if u.username =? name && not u.active then some u else find_pending name us

-- Whether the code belongs to the pending user's secret.
unfoldable pub confirms : Crypto → Request → Config → Confirmation → List User → Result Bool
unfolding find_pending decrypt_secret validate_totp
confirms c request config given users = both (request.fail load_pending) (
    bind (row_of (find_pending given.username users)) (λ u.
      bind (decrypt_secret c config.encryption_key u.totp_secret)
        (λ secret. ok (validate_totp c secret given.totp (request.clock at_check)))))

unfoldable pub require_code : Result Bool → Handler (Unit {0})
unfolding count_denied
require_code (ok true) s = (go tt, s)
require_code (ok false) s = (done (failure 400 "invalid_totp"), count_denied s)
require_code (err e) s = (done (failure 400 "invalid_totp"), count_denied s)

-- `UPDATE users SET active=true WHERE username=$1 AND active=false`: a name is unique, so that one row
-- changes or none, which is `none`.
abbrev pub after_row : User → Option (List User) → Option (List User)
after_row u none = none
after_row u (some us) = some (u ∷ us)

unfoldable pub set_active : String → List User → Option (List User)
set_active name [] = none
set_active name (u ∷ us) =
    let later = after_row u (set_active name us) in
    if u.username =? name && not u.active then some (record u { active = true } ∷ us) else later

-- If the statement fails there is no result to ask for the number of rows, and the handler panics.
abbrev pub activated : Result (Unit {0}) → Option (List User) → Handler (Unit {0})
activated (err e) changed s = (done no_answer, s)
activated (ok _) none s = (done (failure 500 "database"), s)
activated (ok _) (some users) s = (go tt, record s { tables = record s.tables { users = users } })

unfoldable pub activate_user : Request → String → Handler (Unit {0})
unfolding set_active
activate_user request name s = activated (request.fail activate) (set_active name s.tables.users) s

unfoldable pub bootstrap_confirm : Crypto → Net → Request → Option Confirmation → Handler Response
unfolding rate_limit wait require_token confirms require_code activate_user success limiter_name
    audit
bootstrap_confirm c net request body = do
  given ← read_json body
  delay ← rate_limit net request given.username
  wait request delay
  require_token given.token
  s ← current
  require_code (confirms c request s.config given s.tables.users)
  activate_user request given.username
  modify (λ s'. record s' { limiter = success (limiter_name given.username) s'.limiter })
  audit c request "admin.bootstrap.confirm" given.username "success" []
  pure (answer 200 (status "active"))
