-- ===== src/Auth/Opening.antt =====
-- The session that a login opens.
use baja_valle_service.Prelude.{
  ℕ, ◌+◌, ◌≡◌, ◌≢◌, refl, ap, ◌∙◌, Option, none, some, arith, ==_refl, take,
}
use mathlib.Core.Option
use baja_valle_service.Text.{Text, codes}
use baja_valle_service.Prisma.{User, Session, SessionData}
use baja_valle_service.Exec.{ok}
use baja_valle_service.App.{App, AppLaws, State}
use baja_valle_service.Users
use baja_valle_service.Users.{UserProfile}
use baja_valle_service.Sessions
use baja_valle_service.Sessions.{hash_token, ttl_ms, user_agent_max}
use baja_valle_service.Auth.{AuthResponse, start_session, issue_tokens}

module _ (app : App) (laws : AppLaws app) where
  open laws use {prisma_laws}

  -- No session has a token that can be drawn.
  unfoldable pub IsFree : app.prisma.Db → Type 0
  IsFree db =
      (draw i : ℕ) (s : Session)
      → app.prisma.session db i ≡ some s
      → s.token_hash ≢ hash_token app (app.node.to_base64url (app.node.random_bytes draw 32))

  -- A session that has been opened for a user, with the answer that names it.
  pub record Opens (u : User) (db : app.prisma.Db) (r : AuthResponse) : Type 0 where
    pub session : Session
    pub row : app.prisma.session db session.id ≡ some session
    pub owner : session.user_id ≡ u.id
    pub usable : session.revoked_at ≡ none
    pub token : session.token_hash ≡ hash_token app r.tokens.refresh_token
    pub time : ℕ
    pub expiry : session.expires_at ≡ app.node.clock time + ttl_ms app
    pub access :
        r.tokens.access_token
        ≡ app.jwt.sign
            (app.node.clock (time + 1))
            (record { sub = u.id; role = u.role; sid = session.id })
    pub profile : Users.to_profile app u ≡ ok r.user

  pub start_session_lem :
      (u u' : User) (profile : UserProfile) (user_agent : Option Text) (w : State app)
      → app.prisma.user w.db u.id ≡ some u'
      → Users.to_profile app u ≡ ok profile
      → IsFree w.db
      → (r : AuthResponse) × (w' : State app) × (start_session app u user_agent w ≡ (ok r, w'))
        × Opens u w'.db r
        × ((j : ℕ) → app.prisma.user w'.db j ≡ app.prisma.user w.db j)
  unfolding start_session issue_tokens Sessions.create IsFree
  start_session_lem u u' profile user_agent w there known free =
      let new : SessionData = record {
        user_id = u.id;
        family_id = app.node.random_uuid w.draws;
        token_hash =
            hash_token app (app.node.to_base64url (app.node.random_bytes (w.draws + 1) 32));
        expires_at = app.node.clock w.ticks + ttl_ms app;
        user_agent = Option.map (take user_agent_max) user_agent;
      } in
      let (s, db', stored) =
        prisma_laws.session_create_total new w.db u' there (free (w.draws + 1)) in
      let (row, _, sessions, users) = prisma_laws.session_create_ok new w.db db' s stored in
      let answer : AuthResponse = record {
        tokens = record {
          access_token =
              app.jwt.sign (app.node.clock (w.ticks + 1))
                (record { sub = u.id; role = u.role; sid = s.id });
          refresh_token = app.node.to_base64url (app.node.random_bytes (w.draws + 1) 32);
          token_type = codes "Bearer";
          expires_in = app.jwt_access_ttl_seconds;
        };
        user = profile;
      } in
      (
        answer,
        record w { db = db'; draws = w.draws + 1 + 1; ticks = w.ticks + 1 + 1 },
        ground (arith, stored, known),
        record {
          session = s;
          row = sessions s.id ∙ rw (==_refl s.id);
          owner = ap (λ (x : Session). x.user_id) row;
          usable = ap (λ (x : Session). x.revoked_at) row;
          token = ap (λ (x : Session). x.token_hash) row;
          time = w.ticks;
          expiry = ap (λ (x : Session). x.expires_at) row;
          access = refl;
          profile = known;
        },
        users,
      )
