-- ===== src/Routes.antt =====
-- The routes of src/auth/auth.controller.ts and src/auth/profile.controller.ts: a request passes the
-- guard with the decorators of its handler, and then the handler runs. No handler of them has roles.
pub mod Laws
pub mod Tests
use baja_valle_service.Prelude.{ℕ, Bool, true, false, Option, none, some}
use baja_valle_service.Text.{Text, codes}
use baja_valle_service.Prisma.{Role}
use baja_valle_service.Exec.{Failure, Exec, ok, err, ◌>>=◌, ◌>>◌, pure, throw}
use baja_valle_service.App.{App, Action}
use baja_valle_service.Users.{UserProfile, Names}
use baja_valle_service.Auth
use baja_valle_service.Auth.{AuthUser, AuthTokens, AuthResponse, RegisterDto, LoginDto}
use baja_valle_service.Guards.{can_activate}
use baja_valle_service.Profile

-- The handlers, with the body of the request.
pub data Request : Type 0 where
  register : RegisterDto → Request
  login : LoginDto → Request
  refresh : Text → Request
  logout logout_all me : Request
  get_profile : Request
  update_profile : Names → Request
  change_email change_password : Text → Text → Request
  delete_profile : Text → Request

pub data Response : Type 0 where
  session : AuthResponse → Response
  tokens : AuthTokens → Response
  profile : UserProfile → Response
  identity : ℕ → Role → Response
  no_content : Response

-- @Public()
unfoldable pub is_public : Request → Bool
is_public (Request.register _) = true
is_public (Request.login _) = true
is_public (Request.refresh _) = true
is_public _ = false

-- @IgnoreAccessToken()
unfoldable pub ignores_access_token : Request → Bool
ignores_access_token (Request.refresh _) = true
ignores_access_token _ = false

-- A field of an undefined `req.user`.
abbrev pub no_user : Failure
no_user = Failure.error (codes "TypeError")

module _ (app : App) where
  run_private : Request → AuthUser → Action app Response
  run_private Request.logout user = do Auth.logout app user; pure Response.no_content
  run_private Request.logout_all user = do Auth.logout_all app user; pure Response.no_content
  run_private Request.me user = pure (Response.identity user.id user.role)
  run_private Request.get_profile user = do p ← Profile.get app user; pure (Response.profile p)
  run_private (Request.update_profile dto) user = do
    p ← Profile.update app user dto
    pure (Response.profile p)
  run_private (Request.change_email password email) user = do
    p ← Profile.change_email app user password email
    pure (Response.profile p)
  run_private (Request.change_password current new) user = do
    Profile.change_password app user current new
    pure Response.no_content
  run_private (Request.delete_profile password) user = do
    Profile.delete app user password
    pure Response.no_content
  run_private _ user = throw no_user

  with_user : Request → Option AuthUser → Action app Response
  with_user req none = throw no_user
  with_user req (some user) = run_private req user

  unfoldable pub run : Request → Option AuthUser → Option Text → Action app Response
  unfolding run_private with_user
  run (Request.register dto) user user_agent = do
    r ← Auth.register app dto user_agent
    pure (Response.session r)
  run (Request.login dto) user user_agent = do
    r ← Auth.login app dto user_agent
    pure (Response.session r)
  run (Request.refresh refresh_token) user user_agent = do
    r ← Auth.refresh app refresh_token user_agent
    pure (Response.tokens r)
  run req user user_agent = with_user req user

  unfoldable pub handle : Option Text → Option Text → Request → Action app Response
  handle authorization user_agent req = do
    user ← can_activate app (is_public req) (ignores_access_token req) authorization
    run req user user_agent
