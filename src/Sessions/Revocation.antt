-- ===== src/Sessions/Revocation.antt =====
-- Which sessions are active, and what the logouts revoke.
use baja_valle_service.Prelude.{
  some_inj, ℕ, ◌+◌, ◌<◌, ◌≡◌, ◌≢◌, ◌⊎◌, refl, sym, ap, ◌∙◌, Bool, true, false, Option, none, some,
  inl, inr, arith, Option-cases, if◌then◌else◌,
}
use baja_valle_service.Prisma.{User, Session}
use baja_valle_service.Prisma.Laws.{revoke_if}
use baja_valle_service.Exec.{ok}
use baja_valle_service.App.{App, AppLaws, State}
use baja_valle_service.Sessions.{
  Active, is_open, is_open_of, is_active, find_active, revoke, revoke_all_for_user,
}

-- What `findActive` answers for a row and its user.
abbrev pub active_view : ℕ → ℕ → Option Session → User → Option Active
active_view id time none u = none
active_view id time (some s) u =
    if is_active id time s then some (record { user_id = s.user_id; role = u.role }) else none

module _ (app : App) (laws : AppLaws app) where
  open laws use {prisma_laws}

  -- A session that is not there, is revoked or has expired is not active.
  pub find_active-none :
      (id : ℕ) (w : State app)
      → ((s : Session)
          → app.prisma.session w.db id ≡ some s
          → is_active id (app.node.clock w.ticks) s ≡ false)
      → find_active app id w ≡ (ok none, record w { ticks = w.ticks + 1 })
  unfolding find_active
  find_active-none id w no_row =
      let test : Session → Bool = is_active id (app.node.clock w.ticks) in
      elim (Option-cases (app.prisma.session_find test w.db)) [
        | inl missed ↦ ground arith
        | inr ((s, u), found) ↦
            let (there, hit, owner) = prisma_laws.session_find_some test w.db s u found in
            let key : s.id ≡ id = ground arith in
            absurd (cc (hit, no_row s (ap (app.prisma.session w.db) (sym key) ∙ there)))
      ]

  -- A session that is open and has not expired is active, with its user and the role that the user
  -- has now.
  pub find_active-some :
      (id : ℕ) (s : Session) (w : State app)
      → app.prisma.session w.db id ≡ some s
      → s.revoked_at ≡ none
      → app.node.clock w.ticks < s.expires_at
      → (u : User) × (app.prisma.user w.db s.user_id ≡ some u)
        × (find_active app id w ≡ (
          ok (some (record { user_id = s.user_id; role = u.role })),
          record w { ticks = w.ticks + 1 },
        ))
  unfolding find_active
  find_active-some id s w e h fresh =
      let test : Session → Bool = is_active id (app.node.clock w.ticks) in
      let key : s.id ≡ id = prisma_laws.session_id w.db id s e in
      let hit : test s ≡ true = ground arith in
      elim (Option-cases (app.prisma.session_find test w.db)) [
        | inl missed ↦ absurd (cc (hit, prisma_laws.session_find_none test w.db missed id s e))
        | inr ((r, u), found) ↦
            let (there, hit', owner) = prisma_laws.session_find_some test w.db r u found in
            let key' : r.id ≡ id = ground arith in
            let same : r ≡ s = some_inj (sym there ∙ ap (app.prisma.session w.db) key' ∙ e) in
            (u, rw (← same) owner, ground arith)
      ]

-- A row that a revocation has written is not open, whatever it was.
not-active_of_revoked :
    (test : Session → Bool) (time id later : ℕ) (o : Option Session) (r : Session)
    → revoke_if test time o ≡ some r
    → ((s : Session) → o ≡ some s → s.revoked_at ≡ none → test s ≡ true)
    → is_active id later r ≡ false
not-active_of_revoked test time id later none r e all = cc
not-active_of_revoked test time id later (some s) r e all = elim (Option-cases s.revoked_at) [
  | inl usable ↦ ground (arith, all s refl usable)
  | inr (t, spent) ↦ ground arith
]

module _ (app : App) (laws : AppLaws app) where
  open laws use {prisma_laws}

  -- Once `revoke` has run, the session is not active at any reading of the clock.
  pub find_active-revoke :
      (id : ℕ) (w v : State app)
      → v.db ≡ (revoke app id w).1.db
      → find_active app id v ≡ (ok none, record v { ticks = v.ticks + 1 })
  unfolding revoke
  find_active-revoke id w v same = find_active-none app laws id v (λ r e.
      not-active_of_revoked (is_open id) (app.node.clock w.ticks) id (app.node.clock v.ticks)
        (app.prisma.session w.db id) r
        (sym (prisma_laws.session_revoke (is_open id) (app.node.clock w.ticks) w.db id)
          ∙ ap (λ db. app.prisma.session db id) (sym same)
          ∙ e)
        (λ s es usable. ground (arith, prisma_laws.session_id w.db id s es)))

  -- Once `revokeAllForUser` has run, no session of the user is active but the excepted one, at any
  -- reading of the clock.
  pub find_active-revoke_all :
      (user_id id : ℕ) (except : Option ℕ) (s : Session) (w v : State app)
      → app.prisma.session w.db id ≡ some s
      → s.user_id ≡ user_id
      → except ≢ some id
      → v.db ≡ (revoke_all_for_user app user_id except w).1.db
      → find_active app id v ≡ (ok none, record v { ticks = v.ticks + 1 })
  unfolding revoke_all_for_user
  find_active-revoke_all user_id id except s w v es owner other same =
      let test : Session → Bool = is_open_of user_id except in
      find_active-none app laws id v (λ r e.
        not-active_of_revoked test (app.node.clock w.ticks) id (app.node.clock v.ticks)
          (app.prisma.session w.db id) r
          (sym (prisma_laws.session_revoke test (app.node.clock w.ticks) w.db id)
            ∙ ap (λ db. app.prisma.session db id) (sym same)
            ∙ e)
          (λ x ex usable. ground (arith, prisma_laws.session_id w.db id x ex)))

  -- `revokeAllForUser` changes no excepted session, no session of another user, and no session that
  -- was revoked before.
  pub session-revoke_all :
      (user_id id : ℕ) (except : Option ℕ) (s : Session) (w : State app)
      → app.prisma.session w.db id ≡ some s
      → ((s.user_id ≢ user_id) ⊎ (except ≡ some id)) ⊎ (s.revoked_at ≢ none)
      → app.prisma.session (revoke_all_for_user app user_id except w).1.db id ≡ some s
  unfolding revoke_all_for_user
  session-revoke_all user_id id except s w es apart =
      let test : Session → Bool = is_open_of user_id except in
      prisma_laws.session_revoke test (app.node.clock w.ticks) w.db id
      ∙ ap (revoke_if test (app.node.clock w.ticks)) es
      ∙ ground (arith, prisma_laws.session_id w.db id s es)
