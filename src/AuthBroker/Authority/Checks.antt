-- ===== src/AuthBroker/Authority/Checks.antt =====
-- The handlers that give orders: what they have checked.
use collator.Prelude.{
  ◌+◌, [], Bool, true, false, not, ◌&&◌, ◌||◌, ltb, Option, none, some, String, ◌=?◌, trim_space,
  before, ◌≡◌, refl, sym, ap, ◌∙◌, Bool-cases, inl, inr, arith,
}
use collator.Auth.{Crypto}
use collator.Auth.Password.{verify_password}
use collator.Auth.Totp.{validate_totp}
use collator.AuthBroker.State.{Server, Account, Response, at_check, at_observe, Request}
use collator.AuthBroker.Flow.{
  Flow, go, done, Handler, proceed, ◌>>=◌, respond, pure, current, respond_if,
}
use collator.AuthBroker.Access.{acquire_hash, too_many, audit}
use collator.AuthBroker.Login.{read_json}
use collator.AuthBroker.Actions.{
  Submit, RestartOrder, GapOrder, SettingsOrder, is_bad_reason, is_bad_gap_order, step_up, stepped,
  require_step_up, refuse_if, restart, acknowledge_reward_gap, update_settings,
}
use collator.AuthBroker.Untouched.Steps.{audit-Clean}
use collator.AuthBroker.Untouched.Signing.{read_json-Clean, current-Clean}
use collator.AuthBroker.Untouched.Actions.{refuse_if-Clean, require_step_up-Clean}
use collator.AuthBroker.Careful.{Clean, kept, respond_if-Clean}
use collator.AuthBroker.Authority.Rules.{View, view, Learns, LearnsAt, Orders, Orders->>=, granted}

read_json-Learns {ℓ} :
    {A : Type ℓ} (v : View) (body : Option A) → Learns v (λ a. body ≡ some a) (read_json body)
read_json-Learns v none = record { at = λ s e. tt }
read_json-Learns v (some a) = record { at = λ s e. refl }

current-Learns : (v : View) → Learns v (λ s. view s ≡ v) current
current-Learns v = record { at = λ s e. e }

-- A refusal never goes on.
refused_at {κ} :
    (Q : Unit {0} → Type κ) (sent : Response) (r : Flow (Unit {0}) × Server)
    → LearnsAt Q (proceed {Y = Unit {0}} (λ _. respond sent) r)
refused_at Q sent (go x, s) = tt
refused_at Q sent (done other, s) = tt

refuse_if-Learns :
    (v : View) (b : Bool) (refused : Handler (Unit {0}))
    → Learns v (λ _. b ≡ false) (refuse_if b refused)
unfolding refuse_if ◌>>=◌
refuse_if-Learns v true refused = record {
  at = λ s e. refused_at (λ _. true ≡ false) _ (refused s);
}
refuse_if-Learns v false refused = record { at = λ s e. refl }

and_true : (a b : Bool) → (a && b) ≡ true → (a ≡ true) × (b ≡ true)
and_true a b h = ground arith

module _ (c : Crypto) (request : Request) (x : Account) (password totp : String) where
  -- Password and code are right.
  abbrev pub SteppedUp : Type 0
  SteppedUp =
      (verify_password c x.password_hash password ≡ true)
      × (validate_totp c x.totp_secret totp (request.clock at_check) ≡ true)

  step_up-SteppedUp : (s : Server) → (step_up c request x password totp s).0.0 ≡ true → SteppedUp
  unfolding step_up acquire_hash
  step_up-SteppedUp s = elim (Bool-cases (ltb s.hashing 2)) [
    | inl room ↦ rw room (and_true _ _)
    | inr full ↦ rw full (λ h. absurd (cc))
  ]

  stepped_learned :
      (refused : Handler (Unit {0})) (r : (Bool × Bool) × Server)
      → (r.0.0 ≡ true → SteppedUp)
      → LearnsAt (λ _. SteppedUp) (stepped refused r)
  unfolding stepped too_many ◌>>=◌
  stepped_learned refused ((valid, true), t) h = tt
  stepped_learned refused ((true, false), t) h = h refl
  stepped_learned refused ((false, false), t) h = refused_at (λ _. SteppedUp) _ (refused t)

  require_step_up-Learns :
      (v : View) (refused : Handler (Unit {0}))
      → Learns v (λ _. SteppedUp) (require_step_up c request x password totp refused)
  unfolding require_step_up
  require_step_up-Learns v refused = record {
    at = λ s e. stepped_learned refused (step_up c request x password totp s) (step_up-SteppedUp s);
  }

module _ (c : Crypto) (request : Request) (v : View) (x : Account) where
  -- What the body of an accepted restart says.
  pub record Restarts (body : Option RestartOrder) : Type 0 where
    pub given : RestartOrder
    pub sent : body ≡ some given
    pub confirmed : (given.confirm =? v.0.node_name) ≡ true
    pub reasoned : is_bad_reason (trim_space given.reason) ≡ false
    pub stepped_up : SteppedUp c request x given.password given.totp

  not_or_false : (a b : Bool) → (not a || b) ≡ false → (a ≡ true) × (b ≡ false)
  not_or_false a b h = ground arith

  pub restart-Orders :
      (submit : Submit) (body : Option RestartOrder)
      → Orders v (Restarts body) (restart c request submit body x)
  unfolding restart
  restart-Orders submit body =
      let denied = audit c request "restart.request" x.username "denied" [] in
      let clean : Clean denied = audit-Clean c request "restart.request" x.username "denied" [] in
      Orders->>= _ _ v _ _ (read_json-Clean body) (read_json-Learns v body) λ given sent.
        Orders->>= _ _ v _ _ current-Clean (current-Learns v) λ s e.
          Orders->>= _ _ v _ _ (refuse_if-Clean _ denied clean) (refuse_if-Learns v _ denied)
            λ _ fine.
              Orders->>= _ _ v _ _
                (require_step_up-Clean c request x given.password given.totp denied clean)
                (require_step_up-Learns c request x given.password given.totp v denied)
                λ _ up.
                  let (named, reasoned) = not_or_false _ _ fine in
                  granted v _ _ (record {
                    given = given;
                    sent = sent;
                    confirmed = ap (λ w. given.confirm =? w.0.node_name) (sym e) ∙ named;
                    reasoned = reasoned;
                    stepped_up = up;
                  })

  pub record Acknowledges (body : Option GapOrder) : Type 0 where
    pub given : GapOrder
    pub sent : body ≡ some given
    pub confirmed : is_bad_gap_order given (trim_space given.reason) ≡ false
    pub stepped_up : SteppedUp c request x given.password given.totp

  pub acknowledge_reward_gap-Orders :
      (submit : Submit) (body : Option GapOrder)
      → Orders v (Acknowledges body) (acknowledge_reward_gap c request submit body x)
  unfolding acknowledge_reward_gap
  acknowledge_reward_gap-Orders submit body =
      let denied = audit c request "reward.history_gap.request" x.username "denied" [] in
      let clean : Clean denied =
        audit-Clean c request "reward.history_gap.request" x.username "denied" [] in
      Orders->>= _ _ v _ _ (read_json-Clean body) (read_json-Learns v body) λ given sent.
        Orders->>= _ _ v _ _ (refuse_if-Clean _ denied clean) (refuse_if-Learns v _ denied)
          λ _ fine.
            Orders->>= _ _ v _ _
              (require_step_up-Clean c request x given.password given.totp denied clean)
              (require_step_up-Learns c request x given.password given.totp v denied)
              λ _ up.
                granted v _ _
                  (record { given = given; sent = sent; confirmed = fine; stepped_up = up })

  pub record Switches (body : Option SettingsOrder) : Type 0 where
    pub given : SettingsOrder
    pub sent : body ≡ some given
    pub stepped_up : SteppedUp c request x given.password given.totp
    pub in_time :
        (given.automation_enabled
          && before (request.clock at_observe) (v.0.installed_at + v.0.observe_only_period))
        ≡ false

  respond_if-Learns : (b : Bool) (sent : Response) → Learns v (λ _. b ≡ false) (respond_if b sent)
  respond_if-Learns true sent = record { at = λ s e. tt }
  respond_if-Learns false sent = record { at = λ s e. refl }

  pub update_settings-Orders :
      (body : Option SettingsOrder) → Orders v (Switches body) (update_settings c request body x)
  unfolding update_settings
  update_settings-Orders body =
      let clean : Clean (pure tt) = record { at = λ s. kept } in
      Orders->>= _ _ v _ _ (read_json-Clean body) (read_json-Learns v body) λ given sent.
        Orders->>= _ _ v _ _
          (require_step_up-Clean c request x given.password given.totp (pure tt) clean)
          (require_step_up-Learns c request x given.password given.totp v (pure tt))
          λ _ up. Orders->>= _ _ v _ _ current-Clean (current-Learns v) λ s e.
            Orders->>= _ _ v _ _ (respond_if-Clean _ _) (respond_if-Learns _ _) λ _ fine.
              granted v _ _ (record {
                given = given;
                sent = sent;
                stepped_up = up;
                in_time =
                    ap
                      (λ w.
                        given.automation_enabled
                        && before (request.clock at_observe)
                            (w.0.installed_at + w.0.observe_only_period))
                      (sym e)
                    ∙ fine;
              })
