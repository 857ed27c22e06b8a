-- ===== src/AuthBroker/Flow.antt =====
-- cmd/authbroker/main.go: a handler is a chain of steps on the server, each of which goes on or has
-- written the answer and returns. What a step has done to the server stays done.
use collator.Prelude.{◌≡◌, refl, Bool, true, false}
use collator.Model.{Result, ok, err}
use collator.AuthBroker.State.{Server, Response}

pub data Flow {ℓ} (A : Type ℓ) : Type ℓ where
  go : A → Flow A
  done : Response → Flow A

abbrev pub Handler {ℓ} : Type ℓ → Type ℓ
Handler A = Server → Flow A × Server

abbrev pub proceed {ℓ κ} :
    {X : Type ℓ} {Y : Type κ} → (X → Handler Y) → Flow X × Server → Flow Y × Server
proceed next (go x, now) = next x now
proceed next (done sent, now) = (done sent, now)

infixl 5 ◌>>=◌ ◌>>◌
unfoldable pub ◌>>=◌ {ℓ κ} : {X : Type ℓ} {Y : Type κ} → Handler X → (X → Handler Y) → Handler Y
◌>>=◌ step next before = proceed next (step before)

abbrev pub ◌>>◌ {κ} : {Y : Type κ} → Handler (Unit {0}) → Handler Y → Handler Y
step >> next = step >>= λ _. next

abbrev pub respond {ℓ} : {A : Type ℓ} → Response → Handler A
respond sent now = (done sent, now)

abbrev pub pure {ℓ} : {A : Type ℓ} → A → Handler A
pure x now = (go x, now)

abbrev pub current : Handler Server
current now = (go now, now)

abbrev pub modify : (Server → Server) → Handler (Unit {0})
modify change now = (go tt, change now)

-- `if bad { writeJSON(...); return }`
abbrev pub respond_if : Bool → Response → Handler (Unit {0})
respond_if true sent now = (done sent, now)
respond_if false sent now = (go tt, now)

-- `if err != nil { writeJSON(...); return }`
abbrev pub or_respond {ℓ} : {A : Type ℓ} → Result A → Response → Handler A
or_respond (ok x) sent now = (go x, now)
or_respond (err e) sent now = (done sent, now)

-- A handler's end, as `ServeHTTP` leaves it.
abbrev pub outcome : Flow Response × Server → Server × Response
outcome (go sent, after) = (after, sent)
outcome (done sent, after) = (after, sent)

abbrev pub serve : Handler Response → Server → Server × Response
serve handler before = outcome (handler before)

pub outcome_server : (r : Flow Response × Server) → (outcome r).0 ≡ r.1
outcome_server (go sent, s) = refl
outcome_server (done sent, s) = refl
