-- ===== src/AuthBroker/Untouched/Actions.antt =====
-- The steps behind `requireAuth`.
use collator.Prelude.{
  ◌+◌, ◌/◌, second, before, [], ◌∷◌, Bool, true, false, ◌&&◌, ◌==◌, ltb, Option, none, some, String,
  refl, arith, Bool-cases, inl, inr,
}
use collator.Model.{Result, ok, err, Evidence, num, text}
use collator.Store.Ids.{new_id}
use collator.Auth.{Crypto}
use collator.AuthBroker.State.{
  Session, ManualAction, Server, Account, queued, Response, at_session, at_observe, set_setting,
  id_bytes, Request, answer,
}
use collator.AuthBroker.Flow.{Handler, ◌>>=◌, ◌>>◌, respond, pure}
use collator.AuthBroker.Careful.{
  Same, same, Same-Guarded, Kept, kept, Kept-trans, Clean, Clean->>=, Guarded, Guarded->>=,
  Guarded-Written, Written->>=, Succeeds, Succeeds->>=, respond_if-Clean, or_respond-Clean,
}
use collator.AuthBroker.Access.{acquire_hash, release_hash, audit}
use collator.AuthBroker.Sessions.{
  lacks_csrf, session_account, admit, authenticate, require_auth, logout,
}
use collator.AuthBroker.Actions.{
  Reply, Submit, RestartOrder, GapOrder, SettingsOrder, step_up, stepped, require_step_up,
  refuse_if, lacks_key, require_key, accepted, send, restart, acknowledge_reward_gap, written,
  update_settings,
}
use collator.AuthBroker.Untouched.Steps.{too_many-Clean, audit-Clean, audit-Written}
use collator.AuthBroker.Untouched.Signing.{read_json-Clean, current-Clean}

admit-Clean :
    (c : Crypto) (request : Request) (r : Result (Account × Session)) → Clean (admit c request r)
unfolding admit
admit-Clean c request (err e) = record { at = λ s. kept }
admit-Clean c request (ok (account, x)) = record {
  at = λ s. elim (Bool-cases (before x.expires_at (request.clock at_session))) [
    | inl over ↦ rw over kept
    | inr alive ↦ elim (Bool-cases (lacks_csrf c request x)) [
      | inl lacking ↦ rw (alive, lacking) kept
      | inr given ↦ rw (alive, given) kept
    ]
  ];
}

pub authenticate-Clean :
    (c : Crypto) (request : Request) (cookie : Option String)
    → Clean (authenticate c request cookie)
unfolding authenticate
authenticate-Clean c request none = record { at = λ s. kept }
authenticate-Clean c request (some token) = record {
  at = λ s. (admit-Clean c request (session_account c request s.config s.tables token)).at s;
}

module _ (c : Crypto) (request : Request) (next : Account → Handler Response) where
  pub require_auth-Guarded :
      ((x : Account) → Guarded (next x)) → Guarded (require_auth c request next)
  unfolding require_auth
  require_auth-Guarded h = Guarded->>= _ _ (authenticate-Clean c request request.session_cookie) h

  pub require_auth-Succeeds :
      ((x : Account) → Succeeds (next x)) → Succeeds (require_auth c request next)
  unfolding require_auth
  require_auth-Succeeds h = Succeeds->>= _ _ h

pub logout-Guarded : (c : Crypto) (request : Request) → Guarded (logout c request)
unfolding logout
logout-Guarded c request = record { at = λ s. tt }

pub logout-Succeeds : (c : Crypto) (request : Request) → Succeeds (logout c request)
unfolding logout
logout-Succeeds c request = record { at = λ s. omega arith }

-- A refusal with its entry in the audit log.
refusal-Clean :
    (refused : Handler (Unit {0})) (sent : Response)
    → Clean refused
    → Clean {A = Unit {0}} (refused >> respond sent)
refusal-Clean refused sent h = Clean->>= refused _ h λ _. record { at = λ s. kept }

pub refuse_if-Clean :
    (b : Bool) (refused : Handler (Unit {0})) → Clean refused → Clean (refuse_if b refused)
unfolding refuse_if
refuse_if-Clean true refused h = record { at = λ s. (refusal-Clean refused _ h).at s }
refuse_if-Clean false refused h = record { at = λ s. kept }

step_up-Kept :
    (c : Crypto) (request : Request) (x : Account) (password totp : String) (s : Server)
    → Kept s (step_up c request x password totp s).1
unfolding step_up acquire_hash release_hash
step_up-Kept c request x password totp s = elim (Bool-cases (ltb s.hashing 2)) [
  | inl room ↦
      rw room
        (record { users = refl; sessions = refl; settings = refl; config = refl; submitted = refl })
  | inr full ↦ rw full kept
]

stepped-Kept :
    (refused : Handler (Unit {0}))
    → Clean refused
    → (s : Server) (r : (Bool × Bool) × Server) → Kept s r.1
    → Kept s (stepped refused r).1
unfolding stepped
stepped-Kept refused h s ((valid, true), t) k =
    Kept-trans k ((too_many-Clean (Unit {0}) second).at t)
stepped-Kept refused h s ((true, false), t) k = k
stepped-Kept refused h s ((false, false), t) k = Kept-trans k ((refusal-Clean refused _ h).at t)

pub require_step_up-Clean :
    (c : Crypto) (request : Request) (x : Account) (password totp : String)
    (refused : Handler (Unit {0}))
    → Clean refused
    → Clean (require_step_up c request x password totp refused)
unfolding require_step_up
require_step_up-Clean c request x password totp refused h = record {
  at = λ s. stepped-Kept refused h s _ (step_up-Kept c request x password totp s);
}

pub require_key-Clean : (request : Request) → Clean (require_key request)
unfolding require_key
require_key-Clean request = record {
  at = λ s. elim (Bool-cases (lacks_key request)) [
    | inl lacking ↦ rw lacking kept
    | inr given ↦ rw given kept
  ];
}

send-Same : (submit : Submit) (action : ManualAction) (s : Server) → Same s (send submit action s).1
unfolding send
send-Same submit action s = record { users = refl; sessions = refl; settings = refl }

pub accepted-Clean : (r : Result Reply) → Clean (accepted r)
unfolding accepted
accepted-Clean (err e) = record { at = λ s. kept }
accepted-Clean (ok reply) = record {
  at = λ s. elim (Bool-cases (reply.status / 100 == 2)) [
    | inl fine ↦ rw fine kept
    | inr other ↦ rw other kept
  ];
}

written-Guarded : (r : Result (Unit {0})) (value : Bool) → Guarded (written r value)
unfolding written
written-Guarded (err e) value = record { at = λ s. inr same }
written-Guarded (ok _) value = record { at = λ s. tt }

module _ (c : Crypto) (request : Request) (submit : Submit) where
  -- An order that was sent is logged, whatever it is.
  sent-Guarded :
      (action : ManualAction) (name actor : String) (details : String → Evidence)
      → Guarded (do
        reply ← send submit action
        queued_id ← accepted reply
        audit c request name actor "queued" (details queued_id)
        pure (answer 202 (queued queued_id)))
  sent-Guarded action name actor details = Same-Guarded _ _ (send-Same submit action) λ reply.
      Guarded->>= _ _ (accepted-Clean reply)
        λ id. Guarded->>= _ _ (audit-Clean c request _ _ _ _) λ _. record { at = λ s. tt }

  pub restart-Guarded :
      (body : Option RestartOrder) (x : Account) → Guarded (restart c request submit body x)
  unfolding restart
  restart-Guarded body x = Guarded->>= _ _ (read_json-Clean body) λ given.
      Guarded->>= _ _ current-Clean λ s.
        Guarded->>= _ _
          (refuse_if-Clean _ _ (audit-Clean c request "restart.request" x.username "denied" []))
          λ _.
            Guarded->>= _ _
              (require_step_up-Clean c request x given.password given.totp _
                (audit-Clean c request "restart.request" x.username "denied" []))
              λ _. Guarded->>= _ _ (require_key-Clean request) λ key.
                Guarded->>= _ _ (or_respond-Clean (new_id c "act" (request.random id_bytes)) _)
                  λ id. sent-Guarded _ _ _ (λ queued_id. ("action_id", text queued_id) ∷ [])

  pub restart-Succeeds :
      (body : Option RestartOrder) (x : Account) → Succeeds (restart c request submit body x)
  unfolding restart
  restart-Succeeds body x = Succeeds->>= _ _ λ given. Succeeds->>= _ _ λ s. Succeeds->>= _ _ λ _.
      Succeeds->>= _ _ λ _. Succeeds->>= _ _ λ key. Succeeds->>= _ _ λ id.
        Succeeds->>= _ _
          λ reply. Succeeds->>= _ _ λ q. Succeeds->>= _ _ λ _. record { at = λ s. omega arith }

  pub acknowledge_reward_gap-Guarded :
      (body : Option GapOrder) (x : Account)
      → Guarded (acknowledge_reward_gap c request submit body x)
  unfolding acknowledge_reward_gap
  acknowledge_reward_gap-Guarded body x = Guarded->>= _ _ (read_json-Clean body) λ given.
      Guarded->>= _ _
        (refuse_if-Clean _ _
          (audit-Clean c request "reward.history_gap.request" x.username "denied" []))
        λ _.
          Guarded->>= _ _
            (require_step_up-Clean c request x given.password given.totp _
              (audit-Clean c request "reward.history_gap.request" x.username "denied" []))
            λ _. Guarded->>= _ _ (require_key-Clean request) λ key.
              Guarded->>= _ _ (or_respond-Clean (new_id c "act" (request.random id_bytes)) _) λ id.
                sent-Guarded _ _ _ (λ queued_id.
                  ("action_id", text queued_id)
                  ∷ ("expected_cursor", num given.expected_cursor)
                  ∷ [])

  pub acknowledge_reward_gap-Succeeds :
      (body : Option GapOrder) (x : Account)
      → Succeeds (acknowledge_reward_gap c request submit body x)
  unfolding acknowledge_reward_gap
  acknowledge_reward_gap-Succeeds body x = Succeeds->>= _ _ λ given. Succeeds->>= _ _ λ _.
      Succeeds->>= _ _ λ _. Succeeds->>= _ _ λ key. Succeeds->>= _ _ λ id.
        Succeeds->>= _ _
          λ reply. Succeeds->>= _ _ λ q. Succeeds->>= _ _ λ _. record { at = λ s. omega arith }

module _ (c : Crypto) (request : Request) where
  pub update_settings-Guarded :
      (body : Option SettingsOrder) (x : Account) → Guarded (update_settings c request body x)
  unfolding update_settings
  update_settings-Guarded body x = Guarded->>= _ _ (read_json-Clean body) λ given.
      Guarded->>= _ _
        (require_step_up-Clean c request x given.password given.totp _ (record { at = λ s. kept }))
        λ _. Guarded->>= _ _ current-Clean λ s.
          Guarded->>= _ _
            (respond_if-Clean
              (given.automation_enabled
                && before (request.clock at_observe)
                    (s.config.installed_at + s.config.observe_only_period))
              _)
            λ _.
              Guarded-Written _ _
                (written-Guarded (request.fail set_setting) given.automation_enabled)
                λ _. Written->>= _ _ (audit-Written c request _ _ _ _) λ _. record { at = λ t. tt }

  pub update_settings-Succeeds :
      (body : Option SettingsOrder) (x : Account) → Succeeds (update_settings c request body x)
  unfolding update_settings
  update_settings-Succeeds body x = Succeeds->>= _ _ λ given. Succeeds->>= _ _ λ _.
      Succeeds->>= _ _ λ s.
        Succeeds->>= _ _
          λ _. Succeeds->>= _ _ λ _. Succeeds->>= _ _ λ _. record { at = λ t. omega arith }
