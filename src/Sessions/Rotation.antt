-- ===== src/Sessions/Rotation.antt =====
-- What a rotation of a refresh token has done, however it ended.
use baja_valle_service.Prelude.{
  ℕ, ◌+◌, ◌<◌, ◌≡◌, ◌≢◌, sym, ap, ◌∙◌, Bool, Option, none, some, inl, inr, arith, ==_refl,
  Option-cases, take,
}
use mathlib.Core.Option
use baja_valle_service.Text.{Text, text_eq}
use baja_valle_service.Text.Laws.{text_eq_iff}
use baja_valle_service.Prisma.{User, Session, SessionData}
use baja_valle_service.Prisma.Laws.{revoke_if, count_if}
use baja_valle_service.Exec.{ok, Result-cases}
use baja_valle_service.App.{App, AppLaws, State}
use baja_valle_service.Sessions.{
  Issued, Rotated, is_open, user_agent_max, hash_token, ttl_ms, create, claim, reissue, refuse,
  rotate_found, rotate,
}

-- The world behind a call that revokes what a test selects, at the clock's next reading.
abbrev pub revoked : (app : App) → (Session → Bool) → State app → State app
revoked app test w = record w {
  db = (app.prisma.session_revoke_many test (app.node.clock w.ticks) w.db).1;
  ticks = w.ticks + 1;
}

-- The data of the session that `create` writes.
abbrev pub created : (app : App) → ℕ → Option Text → ℕ → State app → SessionData
created app user_id user_agent family_id w = record {
  user_id = user_id;
  family_id = family_id;
  token_hash = hash_token app (app.node.to_base64url (app.node.random_bytes w.draws 32));
  expires_at = app.node.clock w.ticks + ttl_ms app;
  user_agent = Option.map (take user_agent_max) user_agent;
}

-- A rotation that replaced the session `s` by the one in `r`.
pub record IsRotation (app : App) (s : Session) (w w' : State app) (r : Rotated) : Type 0 where
  pub spent :
      app.prisma.session w'.db s.id
      ≡ some (record s { revoked_at = some (app.node.clock (w.ticks + 1)) })
  pub issued : app.prisma.session w'.db r.session.id ≡ some r.session
  pub fresh : app.prisma.session w.db r.session.id ≡ none
  pub family : r.session.family_id ≡ s.family_id
  pub owner : r.session.user_id ≡ s.user_id
  pub reported : r.user_id ≡ s.user_id
  pub usable : r.session.revoked_at ≡ none
  pub token : r.session.token_hash ≡ hash_token app r.refresh_token
  pub expiry : r.session.expires_at ≡ app.node.clock (w.ticks + 2) + ttl_ms app
  pub others :
      (j : ℕ) → j ≢ s.id → j ≢ r.session.id → app.prisma.session w'.db j ≡ app.prisma.session w.db j
  pub users : (j : ℕ) → app.prisma.user w'.db j ≡ app.prisma.user w.db j

module _ (app : App) (laws : AppLaws app) where
  open laws use {prisma_laws}

  pub create-inv :
      (user_id family_id : ℕ) (user_agent : Option Text) (w w' : State app) (i : Issued)
      → create app user_id user_agent (some family_id) w ≡ (ok i, w')
      → (app.prisma.session_create (created app user_id user_agent family_id w) w.db
          ≡ (ok i.session, w'.db))
        × (i.refresh_token ≡ app.node.to_base64url (app.node.random_bytes w.draws 32))
  unfolding create
  create-inv user_id family_id user_agent w w' i e =
      elim (Result-cases
        (app.prisma.session_create (created app user_id user_agent family_id w) w.db).0) [
          | inl (x, bad) ↦ ground arith
          | inr (s, good) ↦ (ground arith, ground arith)
        ]

  -- The count of the claim of a session that is there: 1 exactly if it was open.
  count_open :
      (s : Session) (w : State app)
      → app.prisma.session w.db s.id ≡ some s
      → (app.prisma.session_revoke_many (is_open s.id) (app.node.clock w.ticks) w.db).0
        ≡ count_if (is_open s.id) (some s)
  count_open s w e =
      prisma_laws.count_revoke (is_open s.id) (app.node.clock w.ticks) w.db s.id
        (λ r h. ground arith)
      ∙ ap (count_if (is_open s.id)) e

  pub claim_open :
      (s : Session) (u : User) (user_agent : Option Text) (w : State app)
      → app.prisma.session w.db s.id ≡ some s
      → s.revoked_at ≡ none
      → claim app s u user_agent w ≡ reissue app s u user_agent (revoked app (is_open s.id) w)
  unfolding claim
  claim_open s u user_agent w e h = ground (arith, count_open s w e)

  pub claim_spent :
      (s : Session) (u : User) (user_agent : Option Text) (w : State app) (t : ℕ)
      → app.prisma.session w.db s.id ≡ some s
      → s.revoked_at ≡ some t
      → claim app s u user_agent w ≡ refuse app s (revoked app (is_open s.id) w)
  unfolding claim
  claim_spent s u user_agent w t e h = ground (arith, count_open s w e)

  -- A refusal never returns.
  refuse-ne-ok : (s : Session) (w w' : State app) (r : Rotated) → refuse app s w ≢ (ok r, w')
  unfolding refuse
  refuse-ne-ok s w w' r e = ground arith

  reissue-inv :
      (s : Session) (u : User) (user_agent : Option Text) (w w' : State app) (r : Rotated)
      → reissue app s u user_agent w ≡ (ok r, w')
      → (create app s.user_id user_agent (some s.family_id) w
          ≡ (ok (record { session = r.session; refresh_token = r.refresh_token }), w'))
        × (r.user_id ≡ u.id)
        × (r.role ≡ u.role)
  unfolding reissue
  reissue-inv s u user_agent w w' r e =
      elim (Result-cases (create app s.user_id user_agent (some s.family_id) w).0) [
        | inl (x, bad) ↦ ground arith
        | inr (i, good) ↦ (ground arith, ground arith, ground arith)
      ]

  -- The row of a session that is there, behind its claim.
  claimed_row :
      (s : Session) (w : State app)
      → app.prisma.session w.db s.id ≡ some s
      → s.revoked_at ≡ none
      → app.prisma.session (revoked app (is_open s.id) w).db s.id
        ≡ some (record s { revoked_at = some (app.node.clock w.ticks) })
  claimed_row s w e h =
      prisma_laws.session_revoke (is_open s.id) (app.node.clock w.ticks) w.db s.id
      ∙ ap (revoke_if (is_open s.id) (app.node.clock w.ticks)) e
      ∙ ground (arith, ==_refl s.id)

  -- The other rows.
  unclaimed_row :
      (s : Session) (w : State app) (j : ℕ)
      → j ≢ s.id
      → app.prisma.session (revoked app (is_open s.id) w).db j ≡ app.prisma.session w.db j
  unclaimed_row s w j n = elim (Option-cases (app.prisma.session w.db j)) [
    | inl gone ↦
        prisma_laws.session_revoke (is_open s.id) (app.node.clock w.ticks) w.db j
        ∙ ap (revoke_if (is_open s.id) (app.node.clock w.ticks)) gone
        ∙ sym gone
    | inr (r, e) ↦
        let key : r.id ≡ j = prisma_laws.session_id w.db j r e in
        prisma_laws.session_revoke (is_open s.id) (app.node.clock w.ticks) w.db j
        ∙ ap (revoke_if (is_open s.id) (app.node.clock w.ticks)) e
        ∙ ground arith
        ∙ sym e
  ]

  claim-IsRotation :
      (s : Session) (u : User) (user_agent : Option Text) (w w' : State app) (r : Rotated)
      → app.prisma.session w.db s.id ≡ some s
      → app.prisma.user w.db s.user_id ≡ some u
      → s.revoked_at ≡ none
      → reissue app s u user_agent (revoked app (is_open s.id) (record w { ticks = w.ticks + 1 }))
        ≡ (ok r, w')
      → IsRotation app s w w' r
  claim-IsRotation s u user_agent w w' r es eu h e =
      let v : State app = record w { ticks = w.ticks + 1 } in
      let v' : State app = revoked app (is_open s.id) v in
      let (made, same_user, same_role) = reissue-inv s u user_agent v' w' r e in
      let (stored, token) = create-inv s.user_id s.family_id user_agent v' w' _ made in
      let (row, fresh, sessions, users) =
        prisma_laws.session_create_ok _ v'.db w'.db r.session stored in
      let spent = claimed_row s v es h in
      let distinct : r.session.id ≢ s.id =
        λ same. cc (same, ap (app.prisma.session v'.db) same, fresh, spent) in
      record {
        spent = sessions s.id ∙ ground arith;
        issued = sessions r.session.id ∙ rw (==_refl r.session.id);
        fresh = sym (unclaimed_row s v r.session.id distinct) ∙ fresh;
        family = ap (λ (x : Session). x.family_id) row;
        owner = ap (λ (x : Session). x.user_id) row;
        reported = same_user ∙ prisma_laws.user_id w.db s.user_id u eu;
        usable = ap (λ (x : Session). x.revoked_at) row;
        token = ap (λ (x : Session). x.token_hash) row ∙ ap (hash_token app) (sym token);
        expiry =
            ap (λ (x : Session). x.expires_at) row
            ∙ ap (λ n. app.node.clock n + ttl_ms app) (omega arith);
        others = λ j n m. sessions j ∙ ground (arith, unclaimed_row s v j n);
        users =
            λ j. users j ∙ prisma_laws.user_revoke (is_open s.id) (app.node.clock v.ticks) w.db j;
      }

  -- A rotation that returned was given the token of a session that was open and had not expired; it
  -- has revoked that session and issued one session of the same family and user with the new token
  -- and the full lifetime, and it has changed no other session and no user.
  pub rotate-IsRotation :
      (refresh_token : Text) (user_agent : Option Text) (w w' : State app) (r : Rotated)
      → rotate app refresh_token user_agent w ≡ (ok r, w')
      → (s : Session) × (app.prisma.session w.db s.id ≡ some s)
        × (s.token_hash ≡ hash_token app refresh_token)
        × (s.revoked_at ≡ none)
        × (app.node.clock w.ticks < s.expires_at)
        × IsRotation app s w w' r
  unfolding rotate rotate_found
  rotate-IsRotation refresh_token user_agent w w' r e =
      let test : Session → Bool = λ s. text_eq s.token_hash (hash_token app refresh_token) in
      elim (Option-cases (app.prisma.session_find test w.db)) [
        | inl missed ↦ ground arith
        | inr ((s, u), found) ↦
            let (es, hit, eu) = prisma_laws.session_find_some test w.db s u found in
            let v : State app = record w { ticks = w.ticks + 1 } in
            elim (Option-cases s.revoked_at) [
              | inl usable ↦ (
                s,
                es,
                (text_eq_iff _ _).0 hit,
                usable,
                ground arith,
                claim-IsRotation s u user_agent w w' r es eu usable
                    (ground (arith, claim_open s u user_agent v es usable)),
              )
              | inr (t, spent) ↦ absurd (
                  ground (
                    arith,
                    claim_spent s u user_agent v t es spent,
                    refuse-ne-ok s (revoked app (is_open s.id) v) w' r,
                  ))
            ]
      ]
