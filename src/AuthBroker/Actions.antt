-- ===== src/AuthBroker/Actions.antt =====
-- cmd/authbroker/main.go: what an administrator may ask for: a restart, the acknowledgement of pruned
-- rewards and the switch of the automation, each after a second check of password and code.
use collator.Prelude.{
  ℕ, zero, suc, ◌+◌, ◌/◌, ◌%◌, ℤ, pos, pos_part, leb_ℤ, second, before, List, [], ◌∷◌, ◌++◌, length,
  Bool, true, false, not, ◌&&◌, ◌||◌, ltb, ◌==◌, if◌then◌else◌, Option, String, ◌=?◌, utf8,
  trim_space,
}
use collator.Model.{Result, ok, err, num, text, flag}
use collator.Store.Ids.{new_id}
use collator.Auth.{Bytes, Crypto, same_bytes}
use collator.Auth.Password.{verify_password}
use collator.Auth.Totp.{validate_totp}
use collator.AuthBroker.State.{
  ManualAction, restart_service, acknowledge_pruned_reward_gap, Server, Account, Body, queued,
  Response, at_check, at_observe, set_setting, id_bytes, Request, answer, failure,
}
use collator.AuthBroker.Flow.{
  Flow, go, done, Handler, ◌>>=◌, ◌>>◌, respond, pure, current, respond_if, or_respond,
}
use collator.AuthBroker.Access.{too_many, acquire_hash, release_hash, audit}
use collator.AuthBroker.Login.{read_json}

-- `Submit`: the status and the result's id and error.
pub record Reply : Type 0 where
  pub status : ℕ
  pub id : String
  pub error : String

abbrev pub Submit : Type 0
Submit = ManualAction → Result Reply

-- `stepUp`
unfoldable pub step_up :
    Crypto → Request → Account → String → String → Server → (Bool × Bool) × Server
unfolding verify_password validate_totp acquire_hash release_hash
step_up c request x password totp s =
    let (entered, next) = acquire_hash s in
    if entered
    then (
      (
        verify_password c x.password_hash password
            && validate_totp c x.totp_secret totp (request.clock at_check),
        false,
      ),
      release_hash next,
    )
    else ((false, true), next)

-- The answers where it is busy or fails; `refused` is written in the audit log before.
unfoldable pub stepped : Handler (Unit {0}) → (Bool × Bool) × Server → Flow (Unit {0}) × Server
unfolding too_many
stepped refused ((valid, true), next) = too_many second next
stepped refused ((true, false), next) = (go tt, next)
stepped refused ((false, false), next) = (refused >> respond (failure 403 "step_up_failed")) next

unfoldable pub require_step_up :
    Crypto → Request → Account → String → String → Handler (Unit {0}) → Handler (Unit {0})
unfolding step_up stepped
require_step_up c request x password totp refused s =
    stepped refused (step_up c request x password totp s)

-- The request is refused, with an entry in the audit log, before the check of the password.
unfoldable pub refuse_if : Bool → Handler (Unit {0}) → Handler (Unit {0})
refuse_if true refused s = (refused >> respond (failure 403 "step_up_failed")) s
refuse_if false refused s = (go tt, s)

unfoldable pub is_bad_reason : String → Bool
unfolding utf8
is_bad_reason reason = ltb (length (utf8 reason)) 10 || ltb 1000 (length (utf8 reason))

-- The header `Idempotency-Key`.
abbrev key_of : Request → String
key_of request = trim_space request.idempotency_key

unfoldable pub lacks_key : Request → Bool
unfolding utf8 trim_space
lacks_key request = key_of request =? "" || ltb 100 (length (utf8 (key_of request)))

unfoldable pub require_key : Request → Handler String
unfolding lacks_key trim_space
require_key request s =
    if lacks_key request
    then (done (failure 400 "idempotency_key_required"), s)
    else (go (key_of request), s)

-- The call of `Submit`.
unfoldable pub send : Submit → ManualAction → Handler (Result Reply)
send submit action s = (go (submit action), record s { submitted = action ∷ s.submitted })

-- The answer of the controller, passed on if it is no success.
unfoldable pub accepted : Result Reply → Handler String
accepted (err e) s = (done (failure 503 "controller_unavailable"), s)
accepted (ok reply) s = if reply.status / 100 == 2 then (go reply.id, s) else (
  done (failure reply.status (if reply.error =? "" then "controller_rejected" else reply.error)),
  s,
)

pub record RestartOrder : Type 0 where
  pub password : String
  pub totp : String
  pub reason : String
  pub confirm : String
  pub incident_id : String

-- `restart`
unfoldable pub restart :
    Crypto → Request → Submit → Option RestartOrder → Account → Handler Response
unfolding audit is_bad_reason refuse_if require_step_up require_key new_id send accepted trim_space
restart c request submit body x = do
  given ← read_json body
  s ← current
  let denied = audit c request "restart.request" x.username "denied" []
  let reason = trim_space given.reason
  refuse_if (not (given.confirm =? s.config.node_name) || is_bad_reason reason) denied
  require_step_up c request x given.password given.totp denied
  key ← require_key request
  id ← or_respond (new_id c "act" (request.random id_bytes)) (failure 500 "internal")
  reply ← send submit (record {
    action_id = id;
    idempotency_key = key;
    incident_id = given.incident_id;
    requested_by = x.username;
    reason = reason;
    action_kind = restart_service;
  })
  queued_id ← accepted reply
  audit c request "restart.request" x.username "queued" (("action_id", text queued_id) ∷ [])
  pure (answer 202 (queued queued_id))

pub record GapOrder : Type 0 where
  pub password : String
  pub totp : String
  pub reason : String
  pub confirm : String
  pub expected_cursor : ℤ

-- `fmt.Sprintf("PRUNED GAP %d", n)` of a number that is not negative.
unfoldable pub decimal : ℕ → ℕ → Bytes → Bytes
decimal zero n s = s
decimal (suc fuel) n s =
    let more = decimal fuel (n / 10) ((48 + n % 10) ∷ s) in if n == 0 then s else more

unfoldable pub gap_confirmation : ℤ → Bytes
unfolding decimal utf8
gap_confirmation n = utf8 "PRUNED GAP " ++ decimal 19 (pos_part n) []

unfoldable pub is_bad_gap_order : GapOrder → String → Bool
unfolding gap_confirmation same_bytes is_bad_reason utf8
is_bad_gap_order given reason =
    leb_ℤ given.expected_cursor (pos 0)
    || (not (same_bytes (utf8 given.confirm) (gap_confirmation given.expected_cursor))
        || is_bad_reason reason)

-- `acknowledgeRewardGap`
unfoldable pub acknowledge_reward_gap :
    Crypto → Request → Submit → Option GapOrder → Account → Handler Response
unfolding audit is_bad_gap_order refuse_if require_step_up require_key new_id send accepted
    trim_space
acknowledge_reward_gap c request submit body x = do
  given ← read_json body
  let denied = audit c request "reward.history_gap.request" x.username "denied" []
  let reason = trim_space given.reason
  refuse_if (is_bad_gap_order given reason) denied
  require_step_up c request x given.password given.totp denied
  key ← require_key request
  id ← or_respond (new_id c "act" (request.random id_bytes)) (failure 500 "internal")
  reply ← send submit (record {
    action_id = id;
    idempotency_key = key;
    incident_id = "";
    requested_by = x.username;
    reason = reason;
    action_kind = acknowledge_pruned_reward_gap given.expected_cursor;
  })
  queued_id ← accepted reply
  audit c request "reward.history_gap.request" x.username "queued"
      (("action_id", text queued_id) ∷ ("expected_cursor", num given.expected_cursor) ∷ [])
  pure (answer 202 (queued queued_id))

pub record SettingsOrder : Type 0 where
  pub automation_enabled : Bool
  pub password : String
  pub totp : String

-- `SetSetting` of internal/store/store.go, for a Boolean.
unfoldable pub put_setting : String → Bool → List (String × Bool) → List (String × Bool)
put_setting key value [] = (key, value) ∷ []
put_setting key value ((k, v) ∷ rest) =
    if k =? key then (key, value) ∷ rest else (k, v) ∷ put_setting key value rest

unfoldable pub written : Result (Unit {0}) → Bool → Handler (Unit {0})
unfolding put_setting
written (err e) value s = (done (failure 500 "database"), s)
written (ok _) value s = (
  go tt,
  record s {
    tables = record s.tables {
      settings = put_setting "automation_enabled" value s.tables.settings;
    };
  },
)

-- `updateSettings`
unfoldable pub update_settings :
    Crypto → Request → Option SettingsOrder → Account → Handler Response
unfolding audit require_step_up written
update_settings c request body x = do
  given ← read_json body
  require_step_up c request x given.password given.totp (pure tt)
  s ← current
  respond_if
      (given.automation_enabled
        && before (request.clock at_observe) (s.config.installed_at + s.config.observe_only_period))
      (failure 409 "observe_period_not_finished")
  written (request.fail set_setting) given.automation_enabled
  audit c request "settings.automation" x.username "success"
      (("enabled", flag given.automation_enabled) ∷ [])
  pure (answer 200 (Body.automation_enabled given.automation_enabled))
