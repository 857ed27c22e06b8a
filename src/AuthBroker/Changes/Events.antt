-- ===== src/AuthBroker/Changes/Events.antt =====
-- A whole run of the broker: requests, the rounds of the maintenance, and logins whose second half
-- comes later than other requests.
use collator.Prelude.{
  ℕ, ◌+◌, ◌&&◌, before, List, [], ◌∷◌, Bool, Option, String, ltb, sym, subst, Bool-cases, inl, inr,
}
use collator.Model.{Result, ok, err, Evidence, text, num, flag}
use collator.Store.Ids.{new_id}
use collator.Auth.{Crypto}
use collator.AuthBroker.State.{
  ManualAction, Server, Account, queued, Response, at_observe, set_setting, id_bytes, Request, Net,
  answer,
}
use collator.AuthBroker.Flow.{Handler, ◌>>=◌, ◌>>◌, pure, outcome_server, serve}
use collator.AuthBroker.Careful.{kept, Clean, respond_if-Clean, or_respond-Clean}
use collator.AuthBroker.Changes.{Stable, Moves, Clean-Moves, Moves->>=, clean_first, with_tables}
use collator.AuthBroker.Login.{Credentials, Pending, commit_login}
use collator.AuthBroker.Sessions.{require_auth, clean, summarise, maintain}
use collator.AuthBroker.Actions.{
  Submit, send, accepted, written, put_setting, restart, acknowledge_reward_gap, update_settings,
  RestartOrder, GapOrder, SettingsOrder,
}
use collator.AuthBroker.Access.{audit, caddy_only, is_trusted_peer, parsed_host}
use collator.AuthBroker.Routes.{
  Call, ask_health, ask_bootstrap, start_bootstrap, confirm_bootstrap, sign_in, sign_out,
  order_restart, order_gap, change_settings, route, handle,
}
use collator.AuthBroker.Untouched.Steps.{audit-Clean}
use collator.AuthBroker.Untouched.Signing.{read_json-Clean, current-Clean}
use collator.AuthBroker.Untouched.Actions.{
  authenticate-Clean, refuse_if-Clean, require_step_up-Clean, require_key-Clean, accepted-Clean,
}
use collator.AuthBroker.Changes.Signing.{
  health-Moves, status-Moves, bootstrap_start-Moves, bootstrap_confirm-Moves, login-Moves,
  logout-Moves, commit_login-Moves,
}

pub data Event : Type 0 where
  request : Request → Call → Event
  late_commit : Request → Credentials → Pending → Event
  round : Request → Event

abbrev pub after : Crypto → Net → Submit → Event → Server → Server
after c net submit (request r call) s = (serve (handle c net submit r call) s).0
after c net submit (late_commit r given p) s = (serve (commit_login c r given p) s).0
after c net submit (round r) s = (maintain c r s).1

abbrev pub run : Crypto → Net → Submit → List Event → Server → Server
run c net submit [] s = s
run c net submit (e ∷ es) s = run c net submit es (after c net submit e s)

-- A relation that the orders, the settings and the clean-up keep as well.
pub record Lasting (rel : Server → Server → Type 0) : Type 0 where
  pub stable : Stable rel
  pub sent :
      (action : ManualAction) (s : Server) → rel s (record s { submitted = action ∷ s.submitted })
  pub set :
      (settings : List (String × Bool)) (s : Server)
      → rel s (with_tables (record s.tables { settings = settings }) s)
  pub cleaned : (r : Request) (s : Server) → rel s (clean r s)
  pub counted :
      (total limited : ℕ) (s : Server)
      → rel s (record s { denied_total = total; denied_rate_limited = limited })

module _ {rel : Server → Server → Type 0} (lasting : Lasting rel) where
  stable_ : Stable rel
  stable_ = lasting.stable

  first :
      {A : Type 0} (step : Handler A) (next : A → Handler Response)
      → Clean step
      → ((x : A) → Moves stable_ (next x))
      → Moves stable_ (step >>= next)
  first = clean_first stable_

  ends : (sent : Response) → Moves stable_ (pure sent)
  ends sent = Clean-Moves stable_ _ (record { at = λ s. kept })

  send-Moves : (submit : Submit) (action : ManualAction) → Moves stable_ (send submit action)
  unfolding send
  send-Moves submit action = record { at = λ s. lasting.sent action s }

  written-Moves : (r : Result (Unit {0})) (value : Bool) → Moves stable_ (written r value)
  unfolding written
  written-Moves (err e) value = record { at = λ s. stable_.unchanged kept }
  written-Moves (ok _) value = record {
    at = λ s. lasting.set (put_setting "automation_enabled" value s.tables.settings) s;
  }

  module _ (c : Crypto) (r : Request) where
    -- An order and its entry in the audit log.
    order_moves :
        (submit : Submit) (action : ManualAction) (name actor : String)
        (details : String → Evidence)
        → Moves stable_ (do
          reply ← send submit action
          queued_id ← accepted reply
          audit c r name actor "queued" (details queued_id)
          pure (answer 202 (queued queued_id)))
    order_moves submit action name actor details =
        Moves->>= stable_ _ _ (send-Moves submit action) λ reply.
          first _ _ (accepted-Clean reply)
            λ id. first _ _ (audit-Clean c r name actor "queued" (details id)) λ _. ends _

    restart-Moves :
        (submit : Submit) (body : Option RestartOrder) (x : Account)
        → Moves stable_ (restart c r submit body x)
    unfolding restart
    restart-Moves submit body x =
        let denied = audit-Clean c r "restart.request" x.username "denied" [] in
        first _ _ (read_json-Clean body) λ given. first _ _ current-Clean λ s.
          first _ _ (refuse_if-Clean _ _ denied) λ _.
            first _ _ (require_step_up-Clean c r x given.password given.totp _ denied) λ _.
              first _ _ (require_key-Clean r) λ key.
                first _ _ (or_respond-Clean (new_id c "act" (r.random id_bytes)) _)
                  λ id. order_moves submit _ _ _ (λ queued_id. ("action_id", text queued_id) ∷ [])

    gap-Moves :
        (submit : Submit) (body : Option GapOrder) (x : Account)
        → Moves stable_ (acknowledge_reward_gap c r submit body x)
    unfolding acknowledge_reward_gap
    gap-Moves submit body x =
        let denied = audit-Clean c r "reward.history_gap.request" x.username "denied" [] in
        first _ _ (read_json-Clean body) λ given. first _ _ (refuse_if-Clean _ _ denied) λ _.
          first _ _ (require_step_up-Clean c r x given.password given.totp _ denied) λ _.
            first _ _ (require_key-Clean r) λ key.
              first _ _ (or_respond-Clean (new_id c "act" (r.random id_bytes)) _) λ id.
                order_moves submit _ _ _ (λ queued_id.
                  ("action_id", text queued_id)
                  ∷ ("expected_cursor", num given.expected_cursor)
                  ∷ [])

    settings-Moves :
        (body : Option SettingsOrder) (x : Account) → Moves stable_ (update_settings c r body x)
    unfolding update_settings
    settings-Moves body x = first _ _ (read_json-Clean body) λ given.
        first _ _
          (require_step_up-Clean c r x given.password given.totp (pure tt)
            (record { at = λ s. kept }))
          λ _. first _ _ current-Clean λ s.
            first _ _
              (respond_if-Clean
                (given.automation_enabled
                  && before (r.clock at_observe)
                      (s.config.installed_at + s.config.observe_only_period))
                _)
              λ _.
                Moves->>= stable_ _ _ (written-Moves (r.fail set_setting) given.automation_enabled)
                  λ _.
                    first _ _
                      (audit-Clean c r "settings.automation" x.username "success"
                        (("enabled", flag given.automation_enabled) ∷ []))
                      λ _. ends _

    signed :
        (next : Account → Handler Response)
        → ((x : Account) → Moves stable_ (next x))
        → Moves stable_ (require_auth c r next)
    unfolding require_auth
    signed next h = first _ _ (authenticate-Clean c r r.session_cookie) h

    route-Moves :
        (net : Net) (submit : Submit) (call : Call) → Moves stable_ (route c net submit r call)
    unfolding route
    route-Moves net submit (ask_health controller) = health-Moves stable_ r controller
    route-Moves net submit ask_bootstrap = status-Moves stable_ r
    route-Moves net submit (start_bootstrap body) = bootstrap_start-Moves stable_ c net r body
    route-Moves net submit (confirm_bootstrap body) = bootstrap_confirm-Moves stable_ c net r body
    route-Moves net submit (sign_in body) = login-Moves stable_ c net r body
    route-Moves net submit sign_out = signed _ λ x. logout-Moves stable_ c r
    route-Moves net submit (order_restart body) = signed _ (restart-Moves submit body)
    route-Moves net submit (order_gap body) = signed _ (gap-Moves submit body)
    route-Moves net submit (change_settings body) = signed _ (settings-Moves body)

    handled :
        (net : Net) (submit : Submit) (call : Call) (s : Server)
        → rel s (handle c net submit r call s).1
    unfolding handle caddy_only
    handled net submit call s =
        elim (Bool-cases (is_trusted_peer r (parsed_host net (net.split_host r.remote_address)))) [
          | inl trusted ↦ rw trusted ((route-Moves net submit call).at s)
          | inr other ↦ rw other (stable_.unchanged kept)
        ]

    summarise-Moves : Moves stable_ (summarise c r)
    unfolding summarise
    summarise-Moves = record {
      at = λ s. elim (Bool-cases (ltb 0 s.denied_total)) [
        | inl some_ ↦ rw some_ (
            stable_.onward (lasting.counted 0 0 s)
              (stable_.unchanged ((audit-Clean c r _ _ _ _).at _)))
        | inr none_ ↦ rw none_ (lasting.counted 0 0 s)
      ];
    }

    maintained : (s : Server) → rel s (maintain c r s).1
    unfolding maintain
    maintained s =
        (Moves->>= stable_ _ _ summarise-Moves λ _. record { at = λ t. lasting.cleaned r t }).at s

  after_moves :
      (c : Crypto) (net : Net) (submit : Submit) (e : Event) (s : Server)
      → rel s (after c net submit e s)
  after_moves c net submit (request r call) s =
      subst (rel s) (sym (outcome_server (handle c net submit r call s)))
        (handled c r net submit call s)
  after_moves c net submit (late_commit r given p) s =
      subst (rel s) (sym (outcome_server (commit_login c r given p s)))
        ((commit_login-Moves stable_ c r given p).at s)
  after_moves c net submit (round r) s = maintained c r s

  -- The relation holds over every run.
  pub run_moves :
      (c : Crypto) (net : Net) (submit : Submit) (es : List Event) (s : Server)
      → rel s (run c net submit es s)
  run_moves c net submit [] s = stable_.unchanged kept
  run_moves c net submit (e ∷ es) s =
      stable_.onward (after_moves c net submit e s)
        (run_moves c net submit es (after c net submit e s))
