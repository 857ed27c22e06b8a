-- ===== src/AuthBroker/Untouched.antt =====
-- An answer that reports a failure comes with the users, sessions and settings as they were.
pub mod Steps
pub mod Signing
pub mod Bootstrap
pub mod Actions
use collator.Prelude.{
  ℕ, ◌≤◌, ◌<◌, ◌≡◌, refl, arith, Bool, true, false, if◌then◌else◌, Bool-cases, inl, inr, Option,
}
use collator.Model.{Result}
use collator.Auth.{Bytes, Crypto}
use collator.AuthBroker.State.{
  User, Session, Tables, Config, ActionKind, restart_service, acknowledge_pruned_reward_gap,
  ManualAction, Server, Account, Cookie, Body, nothing, error, status, needs_bootstrap, enrolled,
  username, queued, automation_enabled, Response, Moment, at_limit, at_check, at_session, at_fail,
  at_observe, at_clean_test, at_clean, Site, load_user, count_active, begin, lock_codes,
  update_codes, insert_session, commit, delete_pending, insert_user, load_pending, activate,
  load_session, delete_session, set_setting, insert_audit, delete_expired, ping, Draw,
  session_token, csrf_token, id_bytes, salt, totp_secret, nonce, audit_bytes, Request, Net, answer,
  failure, no_answer,
}
use collator.AuthBroker.Flow.{
  Flow, go, done, Handler, proceed, ◌>>=◌, ◌>>◌, respond, pure, current, modify, respond_if,
  or_respond, outcome, serve,
}
use collator.AuthBroker.Careful.{
  Same, same, Clean->>=, Clean-Guarded, Guarded, Guarded->>=, Succeeds, Succeeds->>=,
  or_respond-Clean, served-Same,
}
use collator.AuthBroker.Access.{is_trusted_peer, parsed_host, caddy_only, health}
use collator.AuthBroker.Bootstrap.{bootstrap_status}
use collator.AuthBroker.Actions.{Submit}
use collator.AuthBroker.Routes.{
  Call, ask_health, ask_bootstrap, start_bootstrap, confirm_bootstrap, sign_in, sign_out,
  order_restart, order_gap, change_settings, route, handle,
}
use Signing.{current-Clean, login-Guarded, login-Succeeds}
use Bootstrap.{
  bootstrap_start-Guarded, bootstrap_start-Succeeds, bootstrap_confirm-Guarded,
  bootstrap_confirm-Succeeds,
}
use Actions.{
  require_auth-Guarded, require_auth-Succeeds, logout-Guarded, logout-Succeeds, restart-Guarded,
  restart-Succeeds, acknowledge_reward_gap-Guarded, acknowledge_reward_gap-Succeeds,
  update_settings-Guarded, update_settings-Succeeds,
}

health-Guarded :
    (request : Request) (controller : Result (Unit {0})) → Guarded (health request controller)
unfolding health
health-Guarded request controller =
    Guarded->>= _ _ (or_respond-Clean (request.fail ping) _)
      λ _. Guarded->>= _ _ (or_respond-Clean controller _) λ _. record { at = λ s. tt }

health-Succeeds :
    (request : Request) (controller : Result (Unit {0})) → Succeeds (health request controller)
unfolding health
health-Succeeds request controller =
    Succeeds->>= _ _ λ _. Succeeds->>= _ _ λ _. record { at = λ s. omega arith }

status-Guarded : (request : Request) → Guarded (bootstrap_status request)
unfolding bootstrap_status
status-Guarded request =
    Guarded->>= _ _ (or_respond-Clean (request.fail count_active) _)
      λ _. Guarded->>= _ _ current-Clean λ s. record { at = λ t. tt }

status-Succeeds : (request : Request) → Succeeds (bootstrap_status request)
unfolding bootstrap_status
status-Succeeds request =
    Succeeds->>= _ _ λ _. Succeeds->>= _ _ λ s. record { at = λ t. omega arith }

proxied-Guarded :
    (net : Net) (request : Request) (next : Handler Response)
    → Guarded next
    → Guarded (caddy_only net request next)
unfolding caddy_only
proxied-Guarded net request next h =
    elim (Bool-cases
      (is_trusted_peer request (parsed_host net (net.split_host request.remote_address)))) [
        | inl trusted ↦ rw trusted h
        | inr other ↦ rw other (record { at = λ s. inr same })
      ]

proxied-Succeeds :
    (net : Net) (request : Request) (next : Handler Response)
    → Succeeds next
    → Succeeds (caddy_only net request next)
unfolding caddy_only
proxied-Succeeds net request next h =
    elim (Bool-cases
      (is_trusted_peer request (parsed_host net (net.split_host request.remote_address)))) [
        | inl trusted ↦ rw trusted h
        | inr other ↦ rw other (record { at = λ s. tt })
      ]

module _ (c : Crypto) (net : Net) (submit : Submit) (request : Request) where
  route-Guarded : (call : Call) → Guarded (route c net submit request call)
  unfolding route
  route-Guarded (ask_health controller) = health-Guarded request controller
  route-Guarded ask_bootstrap = status-Guarded request
  route-Guarded (start_bootstrap body) = bootstrap_start-Guarded c net request body
  route-Guarded (confirm_bootstrap body) = bootstrap_confirm-Guarded c net request body
  route-Guarded (sign_in body) = login-Guarded c net request body
  route-Guarded sign_out = require_auth-Guarded c request _ λ x. logout-Guarded c request
  route-Guarded (order_restart body) =
      require_auth-Guarded c request _ (restart-Guarded c request submit body)
  route-Guarded (order_gap body) =
      require_auth-Guarded c request _ (acknowledge_reward_gap-Guarded c request submit body)
  route-Guarded (change_settings body) =
      require_auth-Guarded c request _ (update_settings-Guarded c request body)

  route-Succeeds : (call : Call) → Succeeds (route c net submit request call)
  unfolding route
  route-Succeeds (ask_health controller) = health-Succeeds request controller
  route-Succeeds ask_bootstrap = status-Succeeds request
  route-Succeeds (start_bootstrap body) = bootstrap_start-Succeeds c net request body
  route-Succeeds (confirm_bootstrap body) = bootstrap_confirm-Succeeds c net request body
  route-Succeeds (sign_in body) = login-Succeeds c net request body
  route-Succeeds sign_out = require_auth-Succeeds c request _ λ x. logout-Succeeds c request
  route-Succeeds (order_restart body) =
      require_auth-Succeeds c request _ (restart-Succeeds c request submit body)
  route-Succeeds (order_gap body) =
      require_auth-Succeeds c request _ (acknowledge_reward_gap-Succeeds c request submit body)
  route-Succeeds (change_settings body) =
      require_auth-Succeeds c request _ (update_settings-Succeeds c request body)

  handle-Guarded : (call : Call) → Guarded (handle c net submit request call)
  unfolding handle
  handle-Guarded call = proxied-Guarded net request _ (route-Guarded call)

  handle-Succeeds : (call : Call) → Succeeds (handle c net submit request call)
  unfolding handle
  handle-Succeeds call = proxied-Succeeds net request _ (route-Succeeds call)

-- Whatever the request: if it is answered with a failure, a code of 400 or more, then users,
-- sessions and settings are as they were.
pub failed_changes_nothing :
    (c : Crypto) (net : Net) (submit : Submit) (request : Request) (call : Call) (s : Server)
    → 400 ≤ (serve (handle c net submit request call) s).1.code
    → Same s (serve (handle c net submit request call) s).0
failed_changes_nothing c net submit request call s h =
    served-Same (handle c net submit request call) (handle-Guarded c net submit request call)
      (handle-Succeeds c net submit request call) s h
