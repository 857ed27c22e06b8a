-- ===== src/AuthBroker/Authority/Rules.antt =====
-- What the steps of a handler have checked by the time that it sends an order or changes a setting.
use collator.Prelude.{List, ◌≡◌, ◌∙◌, ◌⊎◌, inl, inr}
use collator.AuthBroker.State.{User, Session, Config, Server}
use collator.AuthBroker.Flow.{Flow, go, done, Handler, proceed, ◌>>=◌}
use collator.AuthBroker.Careful.{Kept, Clean}

-- What the checks read of the server.
abbrev pub View : Type 0
View = Config × List User × List Session

abbrev pub view : Server → View
view s = (s.config, s.tables.users, s.tables.sessions)

-- No order was sent, and the settings are as they were.
abbrev pub Unordered : Server → Server → Type 0
Unordered s s' = (s'.submitted ≡ s.submitted) × (s'.tables.settings ≡ s.tables.settings)

abbrev pub LearnsAt {ℓ κ} : {A : Type ℓ} → (A → Type κ) → Flow A × Server → Type κ
LearnsAt Q (go x, s') = Q x
LearnsAt Q (done sent, s') = Unit

Kept-view : {s s' : Server} → Kept s s' → view s' ≡ view s
Kept-view h = λ i. (h.config i, h.users i, h.sessions i)

pub Kept-Unordered : {s s' : Server} → Kept s s' → Unordered s s'
Kept-Unordered h = (h.submitted, h.settings)

module _ {ℓ} {A : Type ℓ} where
  -- If the step goes on, then its check has succeeded.
  pub record Learns {κ} (v : View) (Q : A → Type κ) (step : Handler A) : Type κ where
    pub at : (s : Server) → view s ≡ v → LearnsAt Q (step s)

  nothing_at : (r : Flow A × Server) → LearnsAt (λ _. Unit {0}) r
  nothing_at (go x, s') = tt
  nothing_at (done sent, s') = tt

  pub Learns-nothing : (v : View) (step : Handler A) → Learns v (λ _. Unit {0}) step
  Learns-nothing v step = record { at = λ s e. nothing_at (step s) }

  -- The handler orders nothing, unless `P` holds.
  pub record Orders {κ} (v : View) (P : Type κ) (step : Handler A) : Type κ where
    pub at : (s : Server) → view s ≡ v → Unordered s (step s).1 ⊎ P

  pub Moves-Orders {κ} :
      (v : View) (P : Type κ) (step : Handler A)
      → ((s : Server) → Unordered s (step s).1)
      → Orders v P step
  Moves-Orders v P step h = record { at = λ s e. inl (h s) }

  pub granted {κ} : (v : View) (P : Type κ) (step : Handler A) → P → Orders v P step
  granted v P step p = record { at = λ s e. inr p }

module _ {ℓ κ} {A : Type ℓ} {B : Type κ} (step : Handler A) (next : A → Handler B) where
  module _ {ι μ} (v : View) (Q : A → Type ι) (R : B → Type μ) where
    learn_at :
        (r : Flow A × Server)
        → view r.1 ≡ v
        → LearnsAt Q r
        → ((x : A) → Q x → Learns v R (next x))
        → LearnsAt R (proceed next r)
    learn_at (go x, s') e q k = (k x q).at s' e
    learn_at (done sent, s') e q k = tt

    pub Learns->>= :
        Clean step
        → Learns v Q step
        → ((x : A) → Q x → Learns v R (next x))
        → Learns v R (step >>= next)
    unfolding ◌>>=◌
    Learns->>= h l k = record {
      at = λ s e. learn_at (step s) (Kept-view (h.at s) ∙ e) (l.at s e) k;
    }

  module _ {ι μ} (v : View) (P : Type ι) (Q : A → Type μ) where
    later : (t : Server) {s s' : Server} → Kept s s' → Unordered s' t ⊎ P → Unordered s t ⊎ P
    later t h (inl (k0, k1)) = inl (k0 ∙ h.submitted, k1 ∙ h.settings)
    later t h (inr p) = inr p

    order_at :
        (s : Server) (r : Flow A × Server)
        → view s ≡ v
        → Kept s r.1
        → LearnsAt Q r
        → ((x : A) → Q x → Orders v P (next x))
        → Unordered s (proceed next r).1 ⊎ P
    order_at s (go x, s') e h q k = later (next x s').1 h ((k x q).at s' (Kept-view h ∙ e))
    order_at s (done sent, s') e h q k = inl (Kept-Unordered h)

    -- A check, and what comes after it.
    pub Orders->>= :
        Clean step
        → Learns v Q step
        → ((x : A) → Q x → Orders v P (next x))
        → Orders v P (step >>= next)
    unfolding ◌>>=◌
    Orders->>= h l k = record { at = λ s e. order_at s (step s) e (h.at s) (l.at s e) k }
