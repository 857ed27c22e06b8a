-- ===== src/AuthBroker/Untouched/Steps.antt =====
-- The steps before the handlers, and the audit log, change no user, session or setting.
use collator.Prelude.{
  ℕ, second, ltb, Option, none, some, String, ◌≡◌, refl, arith, Bool-cases, inl, inr,
}
use collator.Model.{Result, ok, err, Evidence}
use collator.Store.{AuditRow}
use collator.Auth.{Crypto}
use collator.AuthLimit.{Decision}
use collator.AuthBroker.State.{Tables, insert_audit, Request, Net, no_answer}
use collator.AuthBroker.Careful.{kept, Clean, Written, respond_if-Clean}
use collator.AuthBroker.Access.{
  client_ip, too_many, decided, limit_address, rate_limit, wait, acquire_hash, enter_gate, logged,
  audited, audit, count_denied,
}

pub too_many-Clean {ℓ} : (A : Type ℓ) (retry_after : ℕ) → Clean {A = A} (too_many retry_after)
unfolding too_many count_denied
too_many-Clean A retry_after = record {
  at = λ s. record {
    users = refl;
    sessions = refl;
    settings = refl;
    config = refl;
    submitted = refl;
  };
}

decided-Clean : (d : Decision) → Clean (decided d)
unfolding decided
decided-Clean d = record {
  at = λ s. elim (Bool-cases d.allowed) [
    | inl free ↦ rw free kept
    | inr full ↦ rw full ((too_many-Clean ℕ d.retry_after).at s)
  ];
}

limit_address-Clean :
    (request : Request) (name : String) (ip : Option String) → Clean (limit_address request name ip)
unfolding limit_address
limit_address-Clean request name none = record { at = λ s. kept }
limit_address-Clean request name (some ip) = record {
  at = λ s.
      let h = (decided-Clean _).at _ in
      record {
        users = h.users;
        sessions = h.sessions;
        settings = h.settings;
        config = h.config;
        submitted = h.submitted;
      };
}

pub rate_limit-Clean :
    (net : Net) (request : Request) (name : String) → Clean (rate_limit net request name)
unfolding rate_limit
rate_limit-Clean net request name = limit_address-Clean request name (client_ip net request)

pub wait-Clean : (request : Request) (duration : ℕ) → Clean (wait request duration)
unfolding wait
wait-Clean request duration = respond_if-Clean _ no_answer

pub enter_gate-Clean : Clean enter_gate
unfolding enter_gate acquire_hash
enter_gate-Clean = record {
  at = λ s. elim (Bool-cases (ltb s.hashing 2)) [
    | inl room ↦
        rw room (record {
          users = refl;
          sessions = refl;
          settings = refl;
          config = refl;
          submitted = refl;
        })
    | inr full ↦ rw full ((too_many-Clean (Unit {0}) second).at s)
  ];
}

audit_row_kept :
    (r : Result (Unit {0})) (row : AuditRow) (t : Tables)
    → let t' = logged r row t in
      (t'.users ≡ t.users) × (t'.sessions ≡ t.sessions) × (t'.settings ≡ t.settings)
audit_row_kept (ok _) row t = (refl, refl, refl)
audit_row_kept (err e) row t = (refl, refl, refl)

audited-Clean :
    (request : Request) (action actor result : String) (details : Evidence) (id : Result String)
    → Clean (audited request action actor result details id)
audited-Clean request action actor result details (err e) = record { at = λ s. kept }
audited-Clean request action actor result details (ok id) = record {
  at = λ s.
      let h = audit_row_kept (request.fail insert_audit) _ s.tables in
      record { users = h.0; sessions = h.1; settings = h.2; config = refl; submitted = refl };
}

audited-Written :
    (request : Request) (action actor result : String) (details : Evidence) (id : Result String)
    → Written (audited request action actor result details id)
audited-Written request action actor result details (err e) = record { at = λ s. omega arith }
audited-Written request action actor result details (ok id) = record { at = λ s. tt }

module _ (c : Crypto) (request : Request) (action actor result : String) (details : Evidence) where
  pub audit-Clean : Clean (audit c request action actor result details)
  unfolding audit
  audit-Clean = audited-Clean request action actor result details _

  pub audit-Written : Written (audit c request action actor result details)
  unfolding audit
  audit-Written = audited-Written request action actor result details _
