-- ===== src/Auth.antt =====
-- src/auth/auth.service.ts, with the types of src/auth/auth.types.ts
pub mod Lockout
pub mod Repeated
pub mod Opening
pub mod Login
pub mod Register
pub mod Tests
use baja_valle_service.Prelude.{
  ℕ, ◌+◌, ◌*◌, Bool, true, false, not, ◌||◌, Option, none, some, ltb, leb, is_some, if◌then◌else◌,
}
use baja_valle_service.Text.{Text, codes}
use baja_valle_service.Prisma.{Role, User}
use baja_valle_service.Exec.{
  HttpException, Failure, Result, ok, err, Exec, ◌>>=◌, ◌>>◌, pure, throw, lift,
}
use baja_valle_service.World.{World, Warning, now, warn}
use baja_valle_service.Password
use baja_valle_service.App.{App, Action, AccessTokenPayload}
use baja_valle_service.Users
use baja_valle_service.Users.{UserProfile}
use baja_valle_service.Sessions

abbrev pub max_failed_logins : ℕ
max_failed_logins = 5

abbrev pub lock_ms : ℕ
lock_ms = 15 * 60 * 1000

abbrev pub invalid_credentials : Failure
invalid_credentials = Failure.http (HttpException.unauthorized (codes "Credenciales inválidas"))

abbrev pub wrong_current_password : Failure
wrong_current_password =
    Failure.http (HttpException.unauthorized (codes "La contraseña actual es incorrecta"))

-- The user of an authenticated request.
pub record AuthUser : Type 0 where
  pub id : ℕ
  pub role : Role
  pub session_id : ℕ

pub record AuthTokens : Type 0 where
  pub access_token : Text
  pub refresh_token : Text
  pub token_type : Text
  pub expires_in : ℕ

pub record AuthResponse : Type 0 where
  pub tokens : AuthTokens
  pub user : UserProfile

pub record RegisterDto : Type 0 where
  pub first_name : Text
  pub last_name : Text
  pub email : Text
  pub password : Text

pub record LoginDto : Type 0 where
  pub email : Text
  pub password : Text

module _ (app : App) where
  unfoldable pub issue_tokens : ℕ → Role → ℕ → Text → Action app AuthTokens
  issue_tokens user_id role session_id refresh_token = do
    time ← now app.node
    pure (record {
      access_token = app.jwt.sign time (record { sub = user_id; role = role; sid = session_id });
      refresh_token = refresh_token;
      token_type = codes "Bearer";
      expires_in = app.jwt_access_ttl_seconds;
    })

  unfoldable pub start_session : User → Option Text → Action app AuthResponse
  start_session user user_agent = do
    issued ← Sessions.create app user.id user_agent none
    tokens ← issue_tokens user.id user.role issued.session.id issued.refresh_token
    profile ← lift (Users.to_profile app user)
    pure (record { tokens = tokens; user = profile })

  unfoldable pub register : RegisterDto → Option Text → Action app AuthResponse
  register dto user_agent = do
    lift (Password.assert_acceptable app.node app.common_passwords dto.password (some dto.email))
    password_hash ← Password.hash app.node dto.password
    user ← Users.create app (record {
      email = dto.email;
      first_name = dto.first_name;
      last_name = dto.last_name;
      password_hash = password_hash;
      role = none;
    })
    start_session user user_agent

  unfoldable pub register_failed_login : ℕ → Action app (Unit {0})
  register_failed_login user_id = do
    user ← Users.record_failed_login app user_id
    if leb max_failed_logins user.failed_login_attempts
        then (do
          time ← now app.node
          Users.lock app user_id (time + lock_ms)
          warn (Warning.account_locked user_id))
        else warn (Warning.failed_login user.failed_login_attempts user_id)

  -- user.lockedUntil && user.lockedUntil > new Date()
  unfoldable pub is_locked : Option ℕ → Action app Bool
  is_locked none = pure false
  is_locked (some until) = do time ← now app.node; pure (ltb time until)

  -- The lines of `login` behind a verified password.
  clear_if_failed : User → Action app (Unit {0})
  clear_if_failed user =
      if ltb 0 user.failed_login_attempts || is_some user.locked_until
      then (do Users.clear_failed_logins app user.id; pure tt)
      else pure tt

  rehash_if_needed : User → Text → Action app (Unit {0})
  rehash_if_needed user password =
      if Password.needs_rehash app.node user.password_hash
      then (do
        h ← Password.hash app.node password
        Users.update_password_hash app user.id h
        pure tt)
      else pure tt

  unfoldable pub login_verified : User → Text → Option Text → Action app AuthResponse
  unfolding clear_if_failed rehash_if_needed
  login_verified user password user_agent = do
    clear_if_failed user
    rehash_if_needed user password
    start_session user user_agent

  login_rejected : User → Action app AuthResponse
  login_rejected user = do register_failed_login user.id; throw invalid_credentials

  login_locked : User → Text → Action app AuthResponse
  login_locked user password = do
    Password.verify_against_dummy app.node password
    warn (Warning.locked_login user.id)
    throw invalid_credentials

  login_user : Option User → Text → Option Text → Action app AuthResponse
  login_user none password user_agent = do
    Password.verify_against_dummy app.node password
    throw invalid_credentials
  login_user (some user) password user_agent = do
    locked ← is_locked user.locked_until
    if locked then login_locked user password else do
      good ← Password.verify app.node user.password_hash password
      if good then login_verified user password user_agent else login_rejected user

  unfoldable pub login : LoginDto → Option Text → Action app AuthResponse
  unfolding login_user login_locked login_rejected
  login dto user_agent = do
    user ← Users.find_by_email app dto.email
    login_user user dto.password user_agent

  unfoldable pub refresh : Text → Option Text → Action app AuthTokens
  refresh refresh_token user_agent = do
    r ← Sessions.rotate app refresh_token user_agent
    issue_tokens r.user_id r.role r.session.id r.refresh_token

  unfoldable pub logout : AuthUser → Action app (Unit {0})
  logout user = Sessions.revoke app user.session_id

  unfoldable pub logout_all : AuthUser → Action app (Unit {0})
  logout_all user = Sessions.revoke_all_for_user app user.id none

  verify_found : Option User → Text → Action app User
  verify_found none password = throw wrong_current_password
  verify_found (some user) password = do
    good ← Password.verify app.node user.password_hash password
    if good then pure user else throw wrong_current_password

  unfoldable pub verify_current_password : ℕ → Text → Action app User
  unfolding verify_found
  verify_current_password user_id password = do
    user ← Users.find_by_id app user_id
    verify_found user password
