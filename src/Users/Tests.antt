-- ===== src/Users/Tests.antt =====
-- Runs of the theorems on accounts, on the users of the sample application.
use baja_valle_service.Prelude.{◌≡◌, none, []}
use baja_valle_service.Text.{codes, trim}
use baja_valle_service.Node.Sample.{sample}
use baja_valle_service.Prisma.{Role, User, Value}
use baja_valle_service.Exec.{Failure, PrismaCode, ok, err}
use baja_valle_service.App.{State}
use baja_valle_service.Users.{NewUser, normalize_email, to_profile, create, update_name}
use baja_valle_service.Users.Accounts.{to_profile-create}
use baja_valle_service.Users.Creation.{create_total}
use baja_valle_service.Users.Updates.{update_name_null}
use baja_valle_service.Sample.{app, laws, any-IsText, start, ana_email, one_user}

abbrev new : NewUser
new = record {
  email = codes "Ana@X.mx";
  first_name = codes "Ana";
  last_name = codes "Sosa";
  password_hash = [];
  role = none;
}

made : (u : User) × (w' : State app) × (create app new start ≡ (ok u, w'))
unfolding app start
made = create_total app laws new start (λ i v e. cc)

to_profile-create_example :
    to_profile app made.0
    ≡ ok (record {
      id = made.0.id;
      email = ana_email;
      first_name = codes "Ana";
      last_name = codes "Sosa";
      role = Role.client;
      created_at = made.0.created_at;
    })
unfolding app start normalize_email sample trim
to_profile-create_example =
    to_profile-create app laws new start made.1 made.0 (any-IsText _) (any-IsText _) (any-IsText _)
      made.2

update_name_null_example :
    (w' : State app) × (update_name app 0
        (record { first_name = Value.null; last_name = Value.text (codes "Ruiz") })
        one_user
      ≡ (err (Failure.prisma PrismaCode.validation), w'))
    × (w'.db ≡ one_user.db)
update_name_null_example = update_name_null app laws 0 (Value.text (codes "Ruiz")) one_user
