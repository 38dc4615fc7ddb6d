-- ===== src/Sessions/Reuse.antt =====
-- The refusals of a rotation: an unknown, expired or already used token.
use baja_valle_service.Prelude.{
  ℕ, ◌+◌, ◌-◌, ◌≤◌, ◌<◌, ◌≡◌, ◌≢◌, refl, sym, ap, ◌∙◌, Option, some, ◌∷◌, inl, inr, arith, leb, ltb,
  Bool-cases, Option-cases,
}
use baja_valle_service.Text.{Text}
use baja_valle_service.Text.Laws.{text_eq_iff}
use baja_valle_service.Prisma.{Session}
use baja_valle_service.Prisma.Laws.{revoke_if}
use baja_valle_service.Exec.{Result, ok, err}
use baja_valle_service.World.{Warning}
use baja_valle_service.App.{App, AppLaws, State}
use baja_valle_service.Sessions.{
  Rotated, invalid_session, is_open, is_open_in, reuse_grace_ms, hash_token, refuse, rotate_found,
  rotate,
}
use baja_valle_service.Sessions.Rotation.{revoked, claim_spent, rotate-IsRotation}
use baja_valle_service.Sessions.Found.{Holds, by_token, session_find-eq}

module _ (app : App) (laws : AppLaws app) where
  open laws use {prisma_laws}

  -- A token that belongs to no session is refused, and nothing happens.
  pub rotate_unknown :
      (token : Text) (user_agent : Option Text) (w : State app)
      → ((i : ℕ) (s : Session)
          → app.prisma.session w.db i ≡ some s
          → s.token_hash ≢ hash_token app token)
      → rotate app token user_agent w ≡ (err invalid_session, w)
  unfolding rotate rotate_found
  rotate_unknown token user_agent w unknown =
      elim (Option-cases (app.prisma.session_find (by_token app laws token) w.db)) [
        | inl missed ↦ ground arith
        | inr ((s, u), found) ↦
            let (there, hit, owner) =
              prisma_laws.session_find_some (by_token app laws token) w.db s u found in
            absurd (unknown s.id s there ((text_eq_iff _ _).0 hit))
      ]

  -- The token of an expired session is refused, used or not, and only the clock is read.
  pub rotate_expired :
      (token : Text) (user_agent : Option Text) (s : Session) (w : State app)
      → Holds app token s w
      → s.expires_at ≤ app.node.clock w.ticks
      → rotate app token user_agent w ≡ (err invalid_session, record w { ticks = w.ticks + 1 })
  unfolding rotate rotate_found
  rotate_expired token user_agent s w h late =
      let (u, found, owner) = session_find-eq app laws token s w h in ground arith

  -- The claim of a used token changes no row.
  claim_spent_row :
      (s : Session) (t : ℕ) (w : State app) (j : ℕ)
      → app.prisma.session w.db s.id ≡ some s
      → s.revoked_at ≡ some t
      → app.prisma.session (revoked app (is_open s.id) w).db j ≡ app.prisma.session w.db j
  claim_spent_row s t w j e h =
      let time = app.node.clock w.ticks in
      elim (Option-cases (app.prisma.session w.db j)) [
        | inl gone ↦
            prisma_laws.session_revoke (is_open s.id) time w.db j
            ∙ ap (revoke_if (is_open s.id) time) gone
            ∙ sym gone
        | inr (r, er) ↦
            let key : r.id ≡ j = prisma_laws.session_id w.db j r er in
            prisma_laws.session_revoke (is_open s.id) time w.db j
            ∙ ap (revoke_if (is_open s.id) time) er
            ∙ ground arith
            ∙ sym er
      ]

  rotate_spent :
      (token : Text) (user_agent : Option Text) (s : Session) (t : ℕ) (w : State app)
      → Holds app token s w
      → s.revoked_at ≡ some t
      → app.node.clock w.ticks < s.expires_at
      → rotate app token user_agent w
        ≡ refuse app s (revoked app (is_open s.id) (record w { ticks = w.ticks + 1 }))
  unfolding rotate rotate_found
  rotate_spent token user_agent s t w h spent fresh =
      let (u, found, owner) = session_find-eq app laws token s w h in
      ground (
        arith,
        claim_spent app laws s u user_agent (record w { ticks = w.ticks + 1 }) t h.row spent,
      )

  -- The world in which `refuse` starts.
  abbrev spent_world : Session → State app → State app
  spent_world s w = revoked app (is_open s.id) (record w { ticks = w.ticks + 1 })

  refuse_in_grace :
      (s : Session) (t : ℕ) (w : State app)
      → app.prisma.session w.db s.id ≡ some s
      → s.revoked_at ≡ some t
      → app.node.clock w.ticks - t < reuse_grace_ms
      → refuse app s w ≡ (err invalid_session, record w { ticks = w.ticks + 1 })
  unfolding refuse
  refuse_in_grace s t w e h recent = ground arith

  refuse_reused :
      (s : Session) (t : ℕ) (w : State app)
      → app.prisma.session w.db s.id ≡ some s
      → s.revoked_at ≡ some t
      → reuse_grace_ms ≤ app.node.clock w.ticks - t
      → let v : State app =
          revoked app (is_open_in s.family_id) (record w { ticks = w.ticks + 1 }) in
        refuse app s w ≡ (
          err invalid_session,
          record v { log = Warning.token_reuse s.family_id s.user_id ∷ v.log },
        )
  unfolding refuse
  refuse_reused s t w e h late = ground arith

  -- A token used less than 10 seconds before is refused, and no session and no user changes: two
  -- simultaneous refreshes do not close the family.
  pub rotate_in_grace :
      (token : Text) (user_agent : Option Text) (s : Session) (t : ℕ) (w : State app)
      → Holds app token s w
      → s.revoked_at ≡ some t
      → app.node.clock w.ticks < s.expires_at
      → app.node.clock (w.ticks + 1 + 1) - t < reuse_grace_ms
      → let (r, w') = rotate app token user_agent w in
        (r ≡ err invalid_session)
        × ((j : ℕ) → app.prisma.session w'.db j ≡ app.prisma.session w.db j)
        × ((j : ℕ) → app.prisma.user w'.db j ≡ app.prisma.user w.db j)
        × (w'.log ≡ w.log)
  rotate_in_grace token user_agent s t w h spent fresh recent =
      let v : State app = record w { ticks = w.ticks + 1 } in
      let row = claim_spent_row s t v s.id h.row spent ∙ h.row in
      rw
        (
          rotate_spent token user_agent s t w h spent fresh,
          refuse_in_grace s t (spent_world s w) row spent recent,
        )
        (
          refl,
          λ j. claim_spent_row s t v j h.row spent,
          λ j. prisma_laws.user_revoke (is_open s.id) (app.node.clock v.ticks) w.db j,
          refl,
        )

  -- A token used 10 seconds before or more is refused, every open session of its family is revoked
  -- at that time, the other sessions and the users stay as they are, and the reuse is logged.
  pub rotate_reused :
      (token : Text) (user_agent : Option Text) (s : Session) (t : ℕ) (w : State app)
      → Holds app token s w
      → s.revoked_at ≡ some t
      → app.node.clock w.ticks < s.expires_at
      → reuse_grace_ms ≤ app.node.clock (w.ticks + 1 + 1) - t
      → let (r, w') = rotate app token user_agent w in
        (r ≡ err invalid_session)
        × ((j : ℕ)
            → app.prisma.session w'.db j
              ≡ revoke_if
                  (is_open_in s.family_id)
                  (app.node.clock (w.ticks + 1 + 1 + 1))
                  (app.prisma.session w.db j))
        × ((j : ℕ) → app.prisma.user w'.db j ≡ app.prisma.user w.db j)
        × (w'.log ≡ Warning.token_reuse s.family_id s.user_id ∷ w.log)
  rotate_reused token user_agent s t w h spent fresh late =
      let v : State app = record w { ticks = w.ticks + 1 } in
      let v' : State app = spent_world s w in
      let time : ℕ = app.node.clock (w.ticks + 1 + 1 + 1) in
      let row = claim_spent_row s t v s.id h.row spent ∙ h.row in
      rw (rotate_spent token user_agent s t w h spent fresh, refuse_reused s t v' row spent late)
        (
          refl,
          λ j.
              prisma_laws.session_revoke (is_open_in s.family_id) time v'.db j
              ∙ ap (revoke_if (is_open_in s.family_id) time) (claim_spent_row s t v j h.row spent),
          λ j.
              prisma_laws.user_revoke (is_open_in s.family_id) time v'.db j
              ∙ prisma_laws.user_revoke (is_open s.id) (app.node.clock v.ticks) w.db j,
          refl,
        )

  -- A used token never rotates again, whatever the time: the answer is always the same refusal.
  pub rotate_spent_refused :
      (token : Text) (user_agent : Option Text) (s : Session) (t : ℕ) (w : State app)
      → Holds app token s w
      → s.revoked_at ≡ some t
      → (rotate app token user_agent w).0 ≡ err invalid_session
  rotate_spent_refused token user_agent s t w h spent =
      elim (Bool-cases (leb s.expires_at (app.node.clock w.ticks))) [
        | inl late ↦
            ap (λ (p : Result Rotated × State app). p.0)
              (rotate_expired token user_agent s w h (ground arith))
        | inr fresh ↦
            elim (Bool-cases (ltb (app.node.clock (w.ticks + 1 + 1) - t) reuse_grace_ms)) [
              | inl recent ↦
                  (rotate_in_grace token user_agent s t w h spent (ground arith) (ground arith)).0
              | inr late ↦
                  (rotate_reused token user_agent s t w h spent (ground arith) (ground arith)).0
            ]
      ]

  -- After a rotation that returned, the same token is refused.
  pub rotate-rotate :
      (token : Text) (user_agent agent' : Option Text) (w w' : State app) (r : Rotated)
      → rotate app token user_agent w ≡ (ok r, w')
      → (rotate app token agent' w').0 ≡ err invalid_session
  rotate-rotate token user_agent agent' w w' r e =
      let (s, row, hash, usable, fresh, done) =
        rotate-IsRotation app laws token user_agent w w' r e in
      let time : ℕ = app.node.clock (w.ticks + 1) in
      let spent : Session = record s { revoked_at = some time } in
      rotate_spent_refused token agent' spent time w' (record { row = done.spent; hash = hash })
        refl
