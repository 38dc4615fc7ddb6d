-- ===== src/SeedAdmin.antt =====
-- src/scripts/seed-admin.ts, with PASSWORD_MIN and PASSWORD_MAX of src/auth/dto/auth.dto.ts. The start
-- and the end of the application context, and what the script prints, are left out.
pub mod Laws
pub mod Tests
use baja_valle_service.Prelude.{
  ℕ, Bool, true, false, ◌||◌, Option, none, some, [], ◌∷◌, ◌++◌, ltb, if◌then◌else◌, length,
}
use baja_valle_service.Text.{Text, codes}
use baja_valle_service.Text.Decimal.{to_string}
use baja_valle_service.Prisma.{Role, User}
use baja_valle_service.Exec.{Failure, Result, ok, err, Exec, ◌>>=◌, ◌>>◌, pure, throw, lift}
use baja_valle_service.App.{App, Action}
use baja_valle_service.Password.{assert_acceptable, hash}
use baja_valle_service.Users
use baja_valle_service.Users.{NewUser}

abbrev pub password_min : ℕ
password_min = 10

abbrev pub password_max : ℕ
password_max = 128

-- The variables SEED_ADMIN_… of the environment.
pub record Seed : Type 0 where
  pub email : Option Text
  pub password : Option Text
  pub first_name : Option Text
  pub last_name : Option Text

abbrev pub no_email : Failure
no_email = Failure.error (codes "Define SEED_ADMIN_EMAIL")

abbrev pub no_password : Failure
no_password = Failure.error (
    codes "Define SEED_ADMIN_PASSWORD ("
    ++ (to_string password_min ++ (codes "-" ++ (to_string password_max ++ codes " caracteres)"))))

-- `??`
abbrev pub or_text : Option Text → Text → Text
or_text none t = t
or_text (some s) t = s

-- A password that is there, of a length in the bounds.
given_password : Option Text → Result Text
given_password none = err no_password
given_password (some []) = err no_password
given_password (some (c ∷ s)) =
    if ltb (length (c ∷ s)) password_min || ltb password_max (length (c ∷ s))
    then err no_password
    else ok (c ∷ s)

-- The argument of `users.create`.
abbrev pub new_admin : Seed → Text → Text → NewUser
new_admin seed email password_hash = record {
  email = email;
  first_name = or_text seed.first_name (codes "Admin");
  last_name = or_text seed.last_name (codes "Baja Valle");
  password_hash = password_hash;
  role = some Role.admin;
}

module _ (app : App) where
  seed_new : Seed → Text → Action app (Unit {0})
  unfolding given_password
  seed_new seed email = do
    password ← lift (given_password seed.password)
    lift (assert_acceptable app.node app.common_passwords password (some email))
    password_hash ← hash app.node password
    Users.create app (new_admin seed email password_hash)
    pure tt

  seed_found : Seed → Text → Option User → Action app (Unit {0})
  unfolding seed_new
  seed_found seed email (some user) = do Users.update_role app user.id Role.admin; pure tt
  seed_found seed email none = seed_new seed email

  seed_email : Seed → Option Text → Action app (Unit {0})
  unfolding seed_found
  seed_email seed none = throw no_email
  seed_email seed (some []) = throw no_email
  seed_email seed (some (c ∷ s)) = do
    existing ← Users.find_by_email app (c ∷ s)
    seed_found seed (c ∷ s) existing

  unfoldable pub main : Seed → Action app (Unit {0})
  unfolding seed_email
  main seed = seed_email seed seed.email
