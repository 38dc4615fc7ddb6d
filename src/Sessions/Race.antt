-- ===== src/Sessions/Race.antt =====
-- Many calls of `rotate` at a time (src/auth/sessions.service.ts): each runs from one call of the
-- database to the next, and between two of its steps the others, and the other methods, run.
pub mod Alone
pub mod Keeps
pub mod Known
pub mod Safety
pub mod Tests
use baja_valle_service.Prelude.{
  ℕ, ◌+◌, ◌≡◌, ◌≢◌, Bool, Option, none, some, leb, ◌==◌, if◌then◌else◌,
}
use baja_valle_service.Text.{Text, text_eq}
use baja_valle_service.Prisma.{User, Session}
use baja_valle_service.Exec.{Failure, Result, ok, err}
use baja_valle_service.World.{Warning, warn}
use baja_valle_service.App.{App, State, Action}
use baja_valle_service.Sessions.{
  Rotated, is_open, hash_token, invalid_session, reissue, refuse_used,
}

-- Where a call of `rotate` waits for the database.
pub data Pc : Type 0 where
  asked : Text → Option Text → Pc
  found : Option (Session × User) → Option Text → Pc
  claimed : ℕ → Session → User → Option Text → Pc
  checked : Session → Option Session → Pc
  answered : Option ℕ → Result Rotated → Pc

-- The session that the call has claimed, from where it is sure of it.
unfoldable pub claims : Pc → Option ℕ
claims (Pc.asked _ _) = none
claims (Pc.found _ _) = none
claims (Pc.claimed count s _ _) = if count == 1 then some s.id else none
claims (Pc.checked _ _) = none
claims (Pc.answered id _) = id

module _ (app : App) where
  -- The lines up to the call that claims the session.
  unfoldable pub step_found : Option (Session × User) → Option Text → State app → Pc × State app
  step_found none user_agent w = (Pc.answered none (err invalid_session), w)
  step_found (some (s, u)) user_agent w =
      let time = app.node.clock w.ticks in
      let read = record w { ticks = w.ticks + 1 } in
      let (count, db) =
        app.prisma.session_revoke_many (is_open s.id) (app.node.clock read.ticks) w.db in
      if leb s.expires_at time
      then (Pc.answered none (err invalid_session), read)
      else (Pc.claimed count s u user_agent, record read { db = db; ticks = read.ticks + 1 })

  -- One step.
  unfoldable pub step : Pc → State app → Pc × State app
  unfolding step_found
  step (Pc.asked token user_agent) w = (
    Pc.found (app.prisma.session_find (λ s. text_eq s.token_hash (hash_token app token)) w.db)
        user_agent,
    w,
  )
  step (Pc.found row user_agent) w = step_found row user_agent w
  step (Pc.claimed count s u user_agent) w =
      let (r, w') = reissue app s u user_agent w in
      if count == 1
      then (Pc.answered (some s.id) r, w')
      else (Pc.checked s (app.prisma.session w.db s.id), w)
  step (Pc.checked s used) w = let (r, w') = refuse_used app s used w in (Pc.answered none r, w')
  step (Pc.answered id r) w = (Pc.answered id r, w)

-- The calls that run, by number, and the world that they share.
pub record System (app : App) : Type 0 where
  pub pc : ℕ → Pc
  pub world : State app

abbrev pub update : (ℕ → Pc) → ℕ → Pc → ℕ → Pc
update f i p j = if i == j then p else f j

-- What no other method does to the sessions, as long as no user is deleted: a session stays with its
-- token, and stays revoked.
pub Keeps : (app : App) → app.prisma.Db → app.prisma.Db → Type 0
Keeps app db db' =
    (i : ℕ) (s : Session)
    → app.prisma.session db i ≡ some s
    → (s' : Session) × (app.prisma.session db' i ≡ some s')
      × (s'.token_hash ≡ s.token_hash)
      × (s.revoked_at ≢ none → s'.revoked_at ≢ none)

pub data Step (app : App) (sys : System app) : System app → Type 0 where
  run :
      (i : ℕ)
      → Step app sys (record {
        pc = update sys.pc i (step app (sys.pc i) sys.world).0;
        world = (step app (sys.pc i) sys.world).1;
      })
  other : (w : State app) → Keeps app sys.world.db w.db → Step app sys (record sys { world = w })

-- What is reached from the calls with these tokens and user agents.
pub data Reach (app : App) (tokens : ℕ → Text) (agents : ℕ → Option Text) (w : State app)
    : System app → Type 0 where
  start : Reach app tokens agents w (record { pc = λ i. Pc.asked (tokens i) (agents i); world = w })
  later :
      {sys sys' : System app}
      → Reach app tokens agents w sys
      → Step app sys sys'
      → Reach app tokens agents w sys'
