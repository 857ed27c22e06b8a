-- ===== src/AuthBroker/Careful.antt =====
-- Handlers that change users, sessions and settings only when they succeed: the rules for their steps.
use collator.Prelude.{◌≤◌, ◌<◌, Bool, true, false, ◌≡◌, refl, ◌∙◌, ◌⊎◌, inl, inr, arith}
use collator.Model.{Result, ok, err}
use collator.AuthBroker.State.{Server, Response}
use collator.AuthBroker.Flow.{
  Flow, go, done, Handler, proceed, ◌>>=◌, outcome, respond_if, or_respond, serve,
}

-- The tables that an administrator's rights rest on are the same.
pub record Same (s s' : Server) : Type 0 where
  pub users : s'.tables.users ≡ s.tables.users
  pub sessions : s'.tables.sessions ≡ s.tables.sessions
  pub settings : s'.tables.settings ≡ s.tables.settings

pub same : {s : Server} → Same s s
same = record { users = refl; sessions = refl; settings = refl }

pub Same-trans : {s t u : Server} → Same s t → Same t u → Same s u
Same-trans h k = record {
  users = k.users ∙ h.users;
  sessions = k.sessions ∙ h.sessions;
  settings = k.settings ∙ h.settings;
}

-- A step that only counts, limits, opens the gate or writes to the audit log.
pub record Kept (s s' : Server) : Type 0 where
  pub users : s'.tables.users ≡ s.tables.users
  pub sessions : s'.tables.sessions ≡ s.tables.sessions
  pub settings : s'.tables.settings ≡ s.tables.settings
  pub config : s'.config ≡ s.config
  pub submitted : s'.submitted ≡ s.submitted

pub kept : {s : Server} → Kept s s
kept = record { users = refl; sessions = refl; settings = refl; config = refl; submitted = refl }

pub Kept-trans : {s t u : Server} → Kept s t → Kept t u → Kept s u
Kept-trans h k = record {
  users = k.users ∙ h.users;
  sessions = k.sessions ∙ h.sessions;
  settings = k.settings ∙ h.settings;
  config = k.config ∙ h.config;
  submitted = k.submitted ∙ h.submitted;
}

pub Kept-Same : {s s' : Server} → Kept s s' → Same s s'
Kept-Same h = record { users = h.users; sessions = h.sessions; settings = h.settings }

-- An answer that reports a failure comes with the tables as they were.
abbrev pub GuardedAt {ℓ} : {A : Type ℓ} → Server → Flow A × Server → Type 0
GuardedAt s (go x, s') = Unit
GuardedAt s (done sent, s') = (sent.code < 400) ⊎ Same s s'

abbrev pub WrittenAt {ℓ} : {A : Type ℓ} → Flow A × Server → Type 0
WrittenAt (go x, s') = Unit
WrittenAt (done sent, s') = sent.code < 400

abbrev pub SucceedsAt : Flow Response × Server → Type 0
SucceedsAt (go sent, s') = sent.code < 400
SucceedsAt (done sent, s') = Unit

module _ {ℓ} {A : Type ℓ} where
  -- A step that changes none of the tables; one that may, unless it answers a failure; and one after
  -- the change, which answers no failure any more.
  pub record Clean (step : Handler A) : Type 0 where
    pub at : (s : Server) → Kept s (step s).1

  pub record Guarded (step : Handler A) : Type 0 where
    pub at : (s : Server) → GuardedAt s (step s)

  pub record Written (step : Handler A) : Type 0 where
    pub at : (s : Server) → WrittenAt (step s)

  pub guarded_at : {s : Server} (r : Flow A × Server) → Kept s r.1 → GuardedAt s r
  guarded_at (go x, s') h = tt
  guarded_at (done sent, s') h = inr (Kept-Same h)

  pub Clean-Guarded : (step : Handler A) → Clean step → Guarded step
  Clean-Guarded step h = record { at = λ s. guarded_at (step s) (h.at s) }

  written_at : (s : Server) (r : Flow A × Server) → WrittenAt r → GuardedAt s r
  written_at s (go x, s') h = tt
  written_at s (done sent, s') h = inl h

  from_at : {s t : Server} (r : Flow A × Server) → Same s t → GuardedAt t r → GuardedAt s r
  from_at (go x, s') h k = tt
  from_at (done sent, s') h (inl k) = inl k
  from_at (done sent, s') h (inr k) = inr (Same-trans h k)

pub record Succeeds (handler : Handler Response) : Type 0 where
  pub at : (s : Server) → SucceedsAt (handler s)

module _ {ℓ κ} {A : Type ℓ} {B : Type κ} (step : Handler A) (next : A → Handler B) where
  both_steps :
      {s : Server} (r : Flow A × Server)
      → Kept s r.1
      → ((x : A) → Clean (next x))
      → Kept s (proceed next r).1
  both_steps (go x, s') h k = Kept-trans h ((k x).at s')
  both_steps (done sent, s') h k = h

  pub Clean->>= : Clean step → ((x : A) → Clean (next x)) → Clean (step >>= next)
  unfolding ◌>>=◌
  Clean->>= h k = record { at = λ s. both_steps (step s) (h.at s) k }

  guard_at :
      {s : Server} (r : Flow A × Server)
      → Same s r.1
      → ((x : A) → Guarded (next x))
      → GuardedAt s (proceed next r)
  guard_at (go x, s') h k = from_at (next x s') h ((k x).at s')
  guard_at (done sent, s') h k = inr h

  -- Nothing has changed yet.
  pub Guarded->>= : Clean step → ((x : A) → Guarded (next x)) → Guarded (step >>= next)
  unfolding ◌>>=◌
  Guarded->>= h k = record { at = λ s. guard_at (step s) (Kept-Same (h.at s)) k }

  -- A step that may change anything else, such as what was submitted.
  pub Same-Guarded :
      ((s : Server) → Same s (step s).1) → ((x : A) → Guarded (next x)) → Guarded (step >>= next)
  unfolding ◌>>=◌
  Same-Guarded h k = record { at = λ s. guard_at (step s) (h s) k }

  after_at :
      (s : Server) (r : Flow A × Server)
      → GuardedAt s r
      → ((x : A) → Written (next x))
      → GuardedAt s (proceed next r)
  after_at s (go x, s') h k = written_at s (next x s') ((k x).at s')
  after_at s (done sent, s') h k = h

  -- This step makes the change.
  pub Guarded-Written : Guarded step → ((x : A) → Written (next x)) → Guarded (step >>= next)
  unfolding ◌>>=◌
  Guarded-Written h k = record { at = λ s. after_at s (step s) (h.at s) k }

  write_at :
      (r : Flow A × Server)
      → WrittenAt r
      → ((x : A) → Written (next x))
      → WrittenAt (proceed next r)
  write_at (go x, s') h k = (k x).at s'
  write_at (done sent, s') h k = h

  pub Written->>= : Written step → ((x : A) → Written (next x)) → Written (step >>= next)
  unfolding ◌>>=◌
  Written->>= h k = record { at = λ s. write_at (step s) (h.at s) k }

succeed_at :
    {A : Type 0} (next : A → Handler Response) (r : Flow A × Server)
    → ((x : A) → Succeeds (next x))
    → SucceedsAt (proceed next r)
succeed_at next (go x, s') k = (k x).at s'
succeed_at next (done sent, s') k = tt

pub Succeeds->>= :
    {A : Type 0} (step : Handler A) (next : A → Handler Response)
    → ((x : A) → Succeeds (next x))
    → Succeeds (step >>= next)
unfolding ◌>>=◌
Succeeds->>= step next k = record { at = λ s. succeed_at next (step s) k }

served_at :
    (s : Server) (r : Flow Response × Server)
    → GuardedAt s r
    → SucceedsAt r
    → 400 ≤ (outcome r).1.code
    → Same s (outcome r).0
served_at s (go sent, s') g k h = absurd (omega arith)
served_at s (done sent, s') (inl g) k h = absurd (omega arith)
served_at s (done sent, s') (inr g) k h = g

-- A failure that is answered has changed nothing.
pub served-Same :
    (handler : Handler Response)
    → Guarded handler
    → Succeeds handler
    → (s : Server) → 400 ≤ (serve handler s).1.code
    → Same s (serve handler s).0
served-Same handler g k s h = served_at s (handler s) (g.at s) (k.at s) h

pub respond_if-Clean : (b : Bool) (sent : Response) → Clean (respond_if b sent)
respond_if-Clean true sent = record { at = λ s. kept }
respond_if-Clean false sent = record { at = λ s. kept }

pub or_respond-Clean {ℓ} : {A : Type ℓ} (r : Result A) (sent : Response) → Clean (or_respond r sent)
or_respond-Clean (ok x) sent = record { at = λ s. kept }
or_respond-Clean (err e) sent = record { at = λ s. kept }
