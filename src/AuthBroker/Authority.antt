-- ===== src/AuthBroker/Authority.antt =====
-- An order is sent, and a setting changed, only for an administrator who is signed in and has given
-- password and code again.
pub mod Rules
pub mod SignedIn
pub mod Checks
pub mod Others
use collator.Prelude.{◌≡◌, refl, ◌⊎◌, inl, inr, Bool, true, false, Bool-cases, if◌then◌else◌}
use collator.Auth.{Bytes, Crypto}
use collator.AuthBroker.State.{
  User, Session, Tables, Config, ActionKind, restart_service, acknowledge_pruned_reward_gap,
  ManualAction, Server, Account, Cookie, Body, nothing, error, status, needs_bootstrap, enrolled,
  username, queued, automation_enabled, Response, Moment, at_limit, at_check, at_session, at_fail,
  at_observe, at_clean_test, at_clean, Site, load_user, count_active, begin, lock_codes,
  update_codes, insert_session, commit, delete_pending, insert_user, load_pending, activate,
  load_session, delete_session, set_setting, insert_audit, delete_expired, ping, Draw,
  session_token, csrf_token, id_bytes, salt, totp_secret, nonce, audit_bytes, Request, Net, answer,
  failure, no_answer,
}
use collator.AuthBroker.Flow.{
  Flow, go, done, Handler, proceed, ◌>>=◌, ◌>>◌, respond, pure, current, modify, respond_if,
  or_respond, outcome, outcome_server, serve,
}
use collator.AuthBroker.Careful.{kept}
use collator.AuthBroker.Access.{is_trusted_peer, parsed_host, caddy_only}
use collator.AuthBroker.Actions.{Submit}
use collator.AuthBroker.Sessions.{require_auth, authenticate}
use collator.AuthBroker.Routes.{
  Call, ask_health, ask_bootstrap, start_bootstrap, confirm_bootstrap, sign_in, sign_out,
  order_restart, order_gap, change_settings, route, handle,
}
use collator.AuthBroker.Untouched.Actions.{authenticate-Clean}
use Rules.{View, view, Unordered, Moves-Orders, Orders, Orders->>=}
use SignedIn.{Authenticated, authenticate-Learns}
use Checks.{
  Restarts, Acknowledges, Switches, restart-Orders, acknowledge_reward_gap-Orders,
  update_settings-Orders,
}
use Others.{Unordered-Stable}
use collator.AuthBroker.Changes.Signing.{
  health-Moves, status-Moves, bootstrap_start-Moves, bootstrap_confirm-Moves, login-Moves,
  logout-Moves,
}

-- What the body of each request must say for its order; the other routes give none.
abbrev pub IsChecked : Crypto → Request → View → Account → Call → Type 0
IsChecked c request v x (order_restart body) = Restarts c request v x body
IsChecked c request v x (order_gap body) = Acknowledges c request v x body
IsChecked c request v x (change_settings body) = Switches c request v x body
IsChecked c request v x other = true ≡ false

abbrev pub IsAuthorised : Crypto → Request → View → Call → Type 0
IsAuthorised c request v call =
    (x : Account) × Authenticated c request v x × IsChecked c request v x call

module _ (c : Crypto) (request : Request) (v : View) where
  behind_auth :
      (call : Call) (next : Account → Handler Response)
      → ((x : Account) → Orders v (IsChecked c request v x call) (next x))
      → Orders v (IsAuthorised c request v call) (require_auth c request next)
  unfolding require_auth
  behind_auth call next h =
      Orders->>= _ _ v _ _ (authenticate-Clean c request request.session_cookie)
        (authenticate-Learns c request v)
        λ x signed. record { at = λ s e. with_account x signed s (next x s).1 ((h x).at s e) }
    where
      with_account :
          (x : Account)
          → Authenticated c request v x
          → (s s' : Server) → Unordered s s' ⊎ IsChecked c request v x call
          → Unordered s s' ⊎ IsAuthorised c request v call
      with_account x signed s s' (inl k) = inl k
      with_account x signed s s' (inr k) = inr (x, signed, k)

  pub route-Orders :
      (net : Net) (submit : Submit) (call : Call)
      → Orders v (IsAuthorised c request v call) (route c net submit request call)
  unfolding route require_auth
  route-Orders net submit (ask_health controller) =
      Moves-Orders v _ _ (health-Moves Unordered-Stable request controller).at
  route-Orders net submit ask_bootstrap =
      Moves-Orders v _ _ (status-Moves Unordered-Stable request).at
  route-Orders net submit (start_bootstrap body) =
      Moves-Orders v _ _ (bootstrap_start-Moves Unordered-Stable c net request body).at
  route-Orders net submit (confirm_bootstrap body) =
      Moves-Orders v _ _ (bootstrap_confirm-Moves Unordered-Stable c net request body).at
  route-Orders net submit (sign_in body) =
      Moves-Orders v _ _ (login-Moves Unordered-Stable c net request body).at
  route-Orders net submit sign_out =
      behind_auth sign_out _ λ x. Moves-Orders v _ _ (logout-Moves Unordered-Stable c request).at
  route-Orders net submit (order_restart body) =
      behind_auth (order_restart body) _ λ x. restart-Orders c request v x submit body
  route-Orders net submit (order_gap body) =
      behind_auth (order_gap body) _ λ x. acknowledge_reward_gap-Orders c request v x submit body
  route-Orders net submit (change_settings body) =
      behind_auth (change_settings body) _ λ x. update_settings-Orders c request v x body

-- Whatever the request: either no order is sent to the controller and the settings stay as they are,
-- or it is a restart, an acknowledgement or a change of the settings, its cookie belongs to a live
-- session of an active user, it has that session's CSRF token unless its method is safe, password and
-- code of its body are the user's, and its confirmation and reason, or the time of observation, pass.
pub orders_need_authority :
    (c : Crypto) (net : Net) (submit : Submit) (request : Request) (call : Call) (s : Server)
    → Unordered s (serve (handle c net submit request call) s).0
      ⊎ IsAuthorised c request (view s) call
unfolding handle caddy_only
orders_need_authority c net submit request call s =
    rw (outcome_server (handle c net submit request call s))
      (elim (Bool-cases
        (is_trusted_peer request (parsed_host net (net.split_host request.remote_address)))) [
          | inl trusted ↦ rw trusted ((route-Orders c request (view s) net submit call).at s refl)
          | inr other ↦ rw other (inl (refl, refl))
        ])
