-- ===== src/Sessions/Race/Alone.antt =====
-- A call of `rotate` that runs without another is `rotate`.
use baja_valle_service.Prelude.{
  ℕ, zero, suc, ◌+◌, ◌≡◌, refl, Bool, true, false, Option, none, some, inl, inr, arith, leb, ◌==◌,
  if◌then◌else◌, Bool-cases,
}
use baja_valle_service.Text.{Text, text_eq}
use baja_valle_service.Prisma.{User, Session}
use baja_valle_service.Exec.{Result, err, throw}
use baja_valle_service.App.{App, State}
use baja_valle_service.Sessions.{
  Rotated, is_open, hash_token, invalid_session, reissue, refuse, claim, rotate_found, rotate,
}
use baja_valle_service.Sessions.Race.{Pc, step_found, step}

module _ (app : App) where
  -- Some steps in a row.
  unfoldable pub steps : ℕ → Pc → State app → Pc × State app
  steps zero p w = (p, w)
  steps (suc n) p w = let (p', w') = step app p w in steps n p' w'

  -- A call that has the answer of an action, and its world.
  abbrev pub HasAnswer : Pc × State app → Result Rotated × State app → Type 0
  HasAnswer (p, w) (r, w') = (id : Option ℕ) × (p ≡ Pc.answered id r) × (w ≡ w')

  steps_claimed :
      (count : ℕ) (s : Session) (u : User) (user_agent : Option Text) (w : State app)
      → HasAnswer
          (steps 2 (Pc.claimed count s u user_agent) w)
          ((if count == 1 then reissue app s u user_agent else refuse app s) w)
  unfolding steps step refuse
  steps_claimed count s u user_agent w = elim (Bool-cases (count == 1)) [
    | inl won ↦ (some s.id, ground arith, ground arith)
    | inr lost ↦ (none, ground arith, ground arith)
  ]

  if-HasAnswer :
      (n : ℕ) (b : Bool) (x y : Pc × State app) (f g : State app → Result Rotated × State app)
      (w : State app)
      → HasAnswer (steps n x.0 x.1) (f w)
      → HasAnswer (steps n y.0 y.1) (g w)
      → HasAnswer (steps n (if b then x else y).0 (if b then x else y).1) ((if b then f else g) w)
  if-HasAnswer n true x y f g w h k = h
  if-HasAnswer n false x y f g w h k = k

  steps_found :
      (row : Option (Session × User)) (user_agent : Option Text) (w : State app)
      → HasAnswer (steps 3 (Pc.found row user_agent) w) (rotate_found app user_agent row w)
  unfolding steps step step_found rotate_found claim
  steps_found none user_agent w = (none, refl, refl)
  steps_found (some (s, u)) user_agent w =
      let time = app.node.clock w.ticks in
      let read = record w { ticks = w.ticks + 1 } in
      let (count, db) =
        app.prisma.session_revoke_many (is_open s.id) (app.node.clock read.ticks) w.db in
      let after = record read { db = db; ticks = read.ticks + 1 } in
      if-HasAnswer 2 (leb s.expires_at time) (Pc.answered none (err invalid_session), read)
        (Pc.claimed count s u user_agent, after) (throw invalid_session) (claim app s u user_agent)
        read (none, refl, refl) (steps_claimed count s u user_agent after)

  -- Four steps of a call, with no other between them, give the answer and the world of `rotate`.
  pub steps-rotate :
      (token : Text) (user_agent : Option Text) (w : State app)
      → HasAnswer (steps 4 (Pc.asked token user_agent) w) (rotate app token user_agent w)
  unfolding steps step rotate
  steps-rotate token user_agent w =
      steps_found (app.prisma.session_find (λ s. text_eq s.token_hash (hash_token app token)) w.db)
        user_agent w
