-- ===== src/Sessions/Total.antt =====
-- A rotation that succeeds.
use baja_valle_service.Prelude.{ℕ, ◌+◌, ◌<◌, ◌≡◌, ◌≢◌, sym, ◌∙◌, Option, none, some, arith}
use baja_valle_service.Text.{Text}
use baja_valle_service.Prisma.{Session}
use baja_valle_service.Exec.{ok}
use baja_valle_service.App.{App, AppLaws, State}
use baja_valle_service.Sessions.{
  Rotated, is_open, hash_token, create, reissue, rotate_found, rotate,
}
use baja_valle_service.Sessions.Rotation.{revoked, created, claim_open}
use baja_valle_service.Sessions.Found.{Holds, revoke_if-inv, session_find-eq}

module _ (app : App) (laws : AppLaws app) where
  open laws use {prisma_laws}

  -- The token of an open session that has not expired rotates, unless the token that is drawn
  -- belongs to a session already.
  pub rotate_total :
      (token : Text) (user_agent : Option Text) (s : Session) (w : State app)
      → Holds app token s w
      → s.revoked_at ≡ none
      → app.node.clock w.ticks < s.expires_at
      → ((i : ℕ) (r : Session)
          → app.prisma.session w.db i ≡ some r
          → r.token_hash
            ≢ hash_token app (app.node.to_base64url (app.node.random_bytes w.draws 32)))
      → (r : Rotated) × (w' : State app) × (rotate app token user_agent w ≡ (ok r, w'))
  unfolding rotate rotate_found reissue create
  rotate_total token user_agent s w h usable fresh free =
      let (u, found, owner) = session_find-eq app laws token s w h in
      let v : State app = record w { ticks = w.ticks + 1 } in
      let time : ℕ = app.node.clock v.ticks in
      let v' : State app = revoked app (is_open s.id) v in
      let (x, db', stored) =
        prisma_laws.session_create_total (created app s.user_id user_agent s.family_id v') v'.db u
          (prisma_laws.user_revoke (is_open s.id) time w.db s.user_id ∙ owner)
          (λ i r e.
            let (old, there, same) =
              revoke_if-inv (is_open s.id) time r (app.prisma.session w.db i)
                (sym (prisma_laws.session_revoke (is_open s.id) time w.db i) ∙ e) in
            λ taken. free i old there (same ∙ taken)) in
      (
        record {
          session = x;
          refresh_token = app.node.to_base64url (app.node.random_bytes w.draws 32);
          user_id = u.id;
          role = u.role;
        },
        record v' { draws = w.draws + 1; ticks = v'.ticks + 1; db = db' },
        ground (arith, claim_open app laws s u user_agent v h.row usable),
      )
