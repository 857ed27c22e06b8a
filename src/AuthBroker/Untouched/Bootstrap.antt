-- ===== src/AuthBroker/Untouched/Bootstrap.antt =====
-- The steps of the bootstrap.
use collator.Prelude.{
  List, Bool, true, false, not, ◌||◌, ltb, Option, none, some, String, refl, arith, Bool-cases, inl,
  inr,
}
use collator.Model.{Result, ok, err}
use collator.Store.Ids.{new_id}
use collator.Auth.{Bytes, Crypto, encrypt_secret}
use collator.Auth.Password.{hash_password}
use collator.Auth.Policy.{valid_username, valid_password}
use collator.Auth.Totp.{generate_totp_secret, recovery_codes}
use collator.AuthBroker.State.{
  User, Tables, Config, Server, count_active, activate, id_bytes, salt, totp_secret, nonce, Request,
  Net,
}
use collator.AuthBroker.Careful.{
  same, kept, Clean, Clean->>=, Guarded, GuardedAt, Guarded->>=, Guarded-Written, Written->>=,
  Succeeds, Succeeds->>=, respond_if-Clean, or_respond-Clean,
}
use collator.AuthBroker.Access.{count_denied}
use collator.AuthBroker.Bootstrap.{
  Enrolment, Confirmation, active_count, check_bootstrap, require_token, new_hash, enrol, stored,
  enrol_now, make_user, may_enrol, bootstrap_start, confirms, require_code, set_active, activated,
  activate_user, bootstrap_confirm,
}
use collator.AuthBroker.Untouched.Steps.{
  rate_limit-Clean, wait-Clean, enter_gate-Clean, audit-Written,
}
use collator.AuthBroker.Untouched.Signing.{read_json-Clean, current-Clean, release_hash-Kept}

pub require_token-Clean : (token : String) → Clean (require_token token)
unfolding require_token count_denied
require_token-Clean token = record {
  at = λ s. elim (Bool-cases (check_bootstrap s.config token)) [
    | inl right ↦ rw right kept
    | inr wrong ↦
        rw wrong (record {
          users = refl;
          sessions = refl;
          settings = refl;
          config = refl;
          submitted = refl;
        })
  ];
}

pub new_hash-Clean :
    (c : Crypto) (request : Request) (password : String) → Clean (new_hash c request password)
unfolding new_hash
new_hash-Clean c request password = Clean->>= _ _ enter_gate-Clean λ _.
    Clean->>= _ _ (record { at = release_hash-Kept })
      λ _. or_respond-Clean (hash_password c password (request.random salt)) _

pub may_enrol-Clean :
    (net : Net) (request : Request) (given : Enrolment) → Clean (may_enrol net request given)
unfolding may_enrol
may_enrol-Clean net request given =
    Clean->>= _ _ (rate_limit-Clean net request given.username) λ delay.
      Clean->>= _ _ (wait-Clean request delay) λ _.
        Clean->>= _ _ (require_token-Clean given.token) λ _.
          Clean->>= _ _ (or_respond-Clean (request.fail count_active) _) λ _.
            Clean->>= _ _ current-Clean λ s.
              Clean->>= _ _ (respond_if-Clean (ltb 0 (active_count s.tables.users)) _) λ _.
                respond_if-Clean
                  (not (valid_username given.username) || not (valid_password given.password)) _

pub make_user-Clean :
    (c : Crypto) (request : Request) (config : Config) (given : Enrolment) (hash : Bytes)
    → Clean (make_user c request config given hash)
unfolding make_user
make_user-Clean c request config given hash =
    Clean->>= _ _ (or_respond-Clean (generate_totp_secret c (request.random totp_secret)) _)
      λ secret.
        Clean->>= _ _
          (or_respond-Clean (encrypt_secret c config.encryption_key secret (request.random nonce))
            _)
          λ sealed.
            Clean->>= _ _ (or_respond-Clean (recovery_codes c request.recovery_draws) _)
              λ (codes, hashes).
                Clean->>= _ _ (or_respond-Clean (new_id c "usr" (request.random id_bytes)) _)
                  λ id. record { at = λ s. kept }

stored-Guarded : (r : Result Tables) → Guarded (stored r)
stored-Guarded (ok t) = record { at = λ s. tt }
stored-Guarded (err e) = record { at = λ s. inr same }

enrol_now-Guarded : (request : Request) (u : User) → Guarded (enrol_now request u)
unfolding enrol_now
enrol_now-Guarded request u = record { at = λ s. (stored-Guarded (enrol request u s.tables)).at s }

module _ (c : Crypto) (net : Net) (request : Request) where
  pub bootstrap_start-Guarded :
      (body : Option Enrolment) → Guarded (bootstrap_start c net request body)
  unfolding bootstrap_start
  bootstrap_start-Guarded body = Guarded->>= _ _ (read_json-Clean body) λ given.
      Guarded->>= _ _ (may_enrol-Clean net request given) λ _.
        Guarded->>= _ _ (new_hash-Clean c request given.password) λ hash.
          Guarded->>= _ _ current-Clean λ s.
            Guarded->>= _ _ (make_user-Clean c request s.config given hash) λ (u, secret, codes).
              Guarded-Written _ _ (enrol_now-Guarded request u)
                λ _. Written->>= _ _ (audit-Written c request _ _ _ _) λ _. record { at = λ t. tt }

  pub bootstrap_start-Succeeds :
      (body : Option Enrolment) → Succeeds (bootstrap_start c net request body)
  unfolding bootstrap_start
  bootstrap_start-Succeeds body = Succeeds->>= _ _ λ given. Succeeds->>= _ _ λ _.
      Succeeds->>= _ _ λ hash. Succeeds->>= _ _ λ s. Succeeds->>= _ _ λ (u, secret, codes).
        Succeeds->>= _ _ λ _. Succeeds->>= _ _ λ _. record { at = λ t. omega arith }

pub require_code-Clean : (r : Result Bool) → Clean (require_code r)
unfolding require_code count_denied
require_code-Clean (ok true) = record { at = λ s. kept }
require_code-Clean (ok false) = record {
  at = λ s. record {
    users = refl;
    sessions = refl;
    settings = refl;
    config = refl;
    submitted = refl;
  };
}
require_code-Clean (err e) = record {
  at = λ s. record {
    users = refl;
    sessions = refl;
    settings = refl;
    config = refl;
    submitted = refl;
  };
}

activated-Guarded :
    (r : Result (Unit {0})) (changed : Option (List User)) (s : Server)
    → GuardedAt s (activated r changed s)
activated-Guarded (err e) changed s = inr same
activated-Guarded (ok _) none s = inr same
activated-Guarded (ok _) (some users) s = tt

activate_user-Guarded : (request : Request) (name : String) → Guarded (activate_user request name)
unfolding activate_user
activate_user-Guarded request name = record {
  at = λ s. activated-Guarded (request.fail activate) (set_active name s.tables.users) s;
}

module _ (c : Crypto) (net : Net) (request : Request) where
  pub bootstrap_confirm-Guarded :
      (body : Option Confirmation) → Guarded (bootstrap_confirm c net request body)
  unfolding bootstrap_confirm
  bootstrap_confirm-Guarded body = Guarded->>= _ _ (read_json-Clean body) λ given.
      Guarded->>= _ _ (rate_limit-Clean net request given.username) λ delay.
        Guarded->>= _ _ (wait-Clean request delay) λ _.
          Guarded->>= _ _ (require_token-Clean given.token) λ _. Guarded->>= _ _ current-Clean λ s.
            Guarded->>= _ _ (require_code-Clean (confirms c request s.config given s.tables.users))
              λ _. Guarded-Written _ _ (activate_user-Guarded request given.username) λ _.
                Written->>= _ _ (record { at = λ t. tt })
                  λ _.
                    Written->>= _ _ (audit-Written c request _ _ _ _) λ _. record { at = λ t. tt }

  pub bootstrap_confirm-Succeeds :
      (body : Option Confirmation) → Succeeds (bootstrap_confirm c net request body)
  unfolding bootstrap_confirm
  bootstrap_confirm-Succeeds body = Succeeds->>= _ _ λ given. Succeeds->>= _ _ λ delay.
      Succeeds->>= _ _ λ _. Succeeds->>= _ _ λ _. Succeeds->>= _ _ λ s. Succeeds->>= _ _ λ _.
        Succeeds->>= _ _
          λ _. Succeeds->>= _ _ λ _. Succeeds->>= _ _ λ _. record { at = λ t. omega arith }
