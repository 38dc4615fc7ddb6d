-- ===== src/Profile.antt =====
-- src/auth/profile.controller.ts, on the user that the guard has set.
pub mod Laws
pub mod Email
pub mod Tests
use baja_valle_service.Prelude.{ℕ, Bool, true, false, ◌&&◌, Option, none, some, if◌then◌else◌}
use baja_valle_service.Text.{Text, codes, text_eq}
use baja_valle_service.Prisma.{User, Value}
use baja_valle_service.Exec.{
  HttpException, Failure, Result, ok, err, Exec, ◌>>=◌, ◌>>◌, pure, throw, lift,
}
use baja_valle_service.World.{World}
use baja_valle_service.Password
use baja_valle_service.App.{App, Action}
use baja_valle_service.Users
use baja_valle_service.Users.{UserProfile, Names}
use baja_valle_service.Sessions
use baja_valle_service.Auth.{AuthUser, verify_current_password}

abbrev pub not_found : Failure
not_found = Failure.http (HttpException.not_found (codes "Not Found"))

abbrev pub no_name : Failure
no_name = Failure.http (HttpException.bad_request (codes "Indica firstName o lastName"))

abbrev pub same_password : Failure
same_password =
    Failure.http
      (HttpException.bad_request (codes "La contraseña nueva debe ser distinta de la actual"))

-- value === undefined
abbrev pub is_undefined : Value → Bool
is_undefined Value.undefined = true
is_undefined _ = false

module _ (app : App) where
  or_not_found : Option User → Action app User
  or_not_found none = throw not_found
  or_not_found (some user) = pure user

  unfoldable pub get : AuthUser → Action app UserProfile
  unfolding or_not_found
  get user = do
    found ← Users.find_by_id app user.id
    stored ← or_not_found found
    lift (Users.to_profile app stored)

  unfoldable pub update : AuthUser → Names → Action app UserProfile
  update user dto =
      if is_undefined dto.first_name && is_undefined dto.last_name
      then throw no_name
      else do stored ← Users.update_name app user.id dto; lift (Users.to_profile app stored)

  unfoldable pub change_email : AuthUser → Text → Text → Action app UserProfile
  change_email user current_password new_email = do
    verify_current_password app user.id current_password
    stored ← Users.update_email app user.id new_email
    lift (Users.to_profile app stored)

  -- The lines behind the test that the passwords differ.
  set_password : AuthUser → User → Text → Action app (Unit {0})
  set_password user stored new_password = do
    profile ← lift (Users.to_profile app stored)
    lift
        (Password.assert_acceptable app.node app.common_passwords new_password (some profile.email))
    h ← Password.hash app.node new_password
    Users.update_password_hash app user.id h
    Sessions.revoke_all_for_user app user.id (some user.session_id)

  unfoldable pub change_password : AuthUser → Text → Text → Action app (Unit {0})
  unfolding set_password
  change_password user current_password new_password = do
    stored ← verify_current_password app user.id current_password
    if text_eq new_password current_password
        then throw same_password
        else set_password user stored new_password

  unfoldable pub delete : AuthUser → Text → Action app (Unit {0})
  delete user current_password = do
    verify_current_password app user.id current_password
    Users.delete app user.id
