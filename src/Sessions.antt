-- ===== src/Sessions.antt =====
-- src/auth/sessions.service.ts
pub mod Rotation
pub mod Found
pub mod Reuse
pub mod Total
pub mod Revocation
pub mod Race
pub mod Tests
use baja_valle_service.Prelude.{
  ℕ, ◌+◌, ◌-◌, ◌*◌, Bool, true, false, not, ◌&&◌, Option, none, some, ltb, leb, ◌==◌, if◌then◌else◌,
  is_none, take,
}
use mathlib.Core.Option
use baja_valle_service.Text.{Text, codes, text_eq}
use baja_valle_service.Prisma.{Role, User, Session, SessionData, Prisma}
use baja_valle_service.Exec.{
  HttpException, Failure, Result, ok, err, Exec, ◌>>=◌, ◌>>◌, pure, throw,
}
use baja_valle_service.World.{
  World, Warning, now, random_bytes, random_uuid, query, call, call_many, warn,
}
use baja_valle_service.App.{App, Action}

abbrev pub day_ms : ℕ
day_ms = 24 * 60 * 60 * 1000

abbrev pub user_agent_max : ℕ
user_agent_max = 255

abbrev pub reuse_grace_ms : ℕ
reuse_grace_ms = 10 * 1000

abbrev pub invalid_session : Failure
invalid_session = Failure.http (HttpException.unauthorized (codes "Sesión inválida o expirada"))

-- What `create` returns, and `rotate` with the user's id and role.
pub record Issued : Type 0 where
  pub session : Session
  pub refresh_token : Text

pub record Rotated : Type 0 where
  pub session : Session
  pub refresh_token : Text
  pub user_id : ℕ
  pub role : Role

-- The row that `findActive` selects.
pub record Active : Type 0 where
  pub user_id : ℕ
  pub role : Role

-- { id, revokedAt: null } and the other `where` clauses
abbrev pub is_open : ℕ → Session → Bool
is_open id s = s.id == id && is_none s.revoked_at

abbrev pub is_open_of : ℕ → Option ℕ → Session → Bool
is_open_of user_id none s = s.user_id == user_id && is_none s.revoked_at
is_open_of user_id (some except) s =
    s.user_id == user_id && is_none s.revoked_at && not (s.id == except)

abbrev pub is_open_in : ℕ → Session → Bool
is_open_in family_id s = s.family_id == family_id && is_none s.revoked_at

abbrev pub is_active : ℕ → ℕ → Session → Bool
is_active id time s = s.id == id && is_none s.revoked_at && ltb time s.expires_at

-- `used?.revokedAt` with the time passed since
abbrev pub revoked_at? : Option Session → Option ℕ
revoked_at? none = none
revoked_at? (some s) = s.revoked_at

module _ (app : App) where
  unfoldable pub hash_token : Text → Text
  hash_token token = app.node.to_base64url (app.node.sha256 token)

  abbrev pub ttl_ms : ℕ
  ttl_ms = app.refresh_token_ttl_days * day_ms

  -- familyId: string = randomUUID()
  or_random_uuid : Option ℕ → Action app ℕ
  or_random_uuid (some id) = pure id
  or_random_uuid none = random_uuid app.node

  unfoldable pub create : ℕ → Option Text → Option ℕ → Action app Issued
  unfolding or_random_uuid
  create user_id user_agent family_id = do
    family_id ← or_random_uuid family_id
    bytes ← random_bytes app.node 32
    time ← now app.node
    session ← call (
        app.prisma.session_create (record {
          user_id = user_id;
          family_id = family_id;
          token_hash = hash_token (app.node.to_base64url bytes);
          expires_at = time + ttl_ms;
          user_agent = Option.map (take user_agent_max) user_agent;
        }))
    pure (record { session = session; refresh_token = app.node.to_base64url bytes })

  unfoldable pub revoke_family : ℕ → Action app (Unit {0})
  revoke_family family_id = do
    time ← now app.node
    call_many (app.prisma.session_revoke_many (is_open_in family_id) time)
    pure tt

  -- used?.revokedAt && Date.now() - used.revokedAt.getTime() < REUSE_GRACE_MS
  is_recent : Option ℕ → Action app Bool
  is_recent none = pure false
  is_recent (some revoked) = do time ← now app.node; pure (ltb (time - revoked) reuse_grace_ms)

  -- The branch of `rotate` that did not claim the session, behind its query and as a whole.
  unfoldable pub refuse_used : Session → Option Session → Action app Rotated
  unfolding is_recent revoke_family
  refuse_used s used = do
    recent ← is_recent (revoked_at? used)
    if recent then throw invalid_session else do
      revoke_family s.family_id
      warn (Warning.token_reuse s.family_id s.user_id)
      throw invalid_session

  unfoldable pub refuse : Session → Action app Rotated
  unfolding refuse_used
  refuse s = do used ← query (λ db. app.prisma.session db s.id); refuse_used s used

  -- Its last lines.
  unfoldable pub reissue : Session → User → Option Text → Action app Rotated
  reissue s u user_agent = do
    next ← create s.user_id user_agent (some s.family_id)
    pure (record {
      session = next.session;
      refresh_token = next.refresh_token;
      user_id = u.id;
      role = u.role;
    })

  unfoldable pub claim : Session → User → Option Text → Action app Rotated
  claim s u user_agent = do
    time ← now app.node
    count ← call_many (app.prisma.session_revoke_many (is_open s.id) time)
    if count == 1 then reissue s u user_agent else refuse s

  -- The test of the expiry date, and what follows it.
  unfoldable pub rotate_found : Option Text → Option (Session × User) → Action app Rotated
  rotate_found user_agent none = throw invalid_session
  rotate_found user_agent (some (s, u)) = do
    time ← now app.node
    if leb s.expires_at time then throw invalid_session else claim s u user_agent

  unfoldable pub rotate : Text → Option Text → Action app Rotated
  unfolding rotate_found
  rotate refresh_token user_agent = do
    found ← query (app.prisma.session_find (λ s. text_eq s.token_hash (hash_token refresh_token)))
    rotate_found user_agent found

  unfoldable pub find_active : ℕ → Action app (Option Active)
  find_active session_id = do
    time ← now app.node
    found ← query (app.prisma.session_find (is_active session_id time))
    pure (
        Option.map (λ ((s, u) : Session × User). record { user_id = s.user_id; role = u.role })
          found)

  unfoldable pub revoke : ℕ → Action app (Unit {0})
  revoke session_id = do
    time ← now app.node
    call_many (app.prisma.session_revoke_many (is_open session_id) time)
    pure tt

  unfoldable pub revoke_all_for_user : ℕ → Option ℕ → Action app (Unit {0})
  revoke_all_for_user user_id except = do
    time ← now app.node
    call_many (app.prisma.session_revoke_many (is_open_of user_id except) time)
    pure tt
