-- ===== src/SeedAdmin/Tests.antt =====
-- A run of the theorem: the account of ana is promoted.
use baja_valle_service.Prelude.{◌≡◌, refl, none, some}
use baja_valle_service.Text.{trim}
use baja_valle_service.Node.Sample.{sample, encode}
use baja_valle_service.Prisma.Memory.{add_user, set_user}
use baja_valle_service.Prisma.Memory.Find.{find_below}
use baja_valle_service.Encryption.{blind_index}
use baja_valle_service.Exec.{ok}
use baja_valle_service.Users
use baja_valle_service.SeedAdmin.{Seed, main}
use baja_valle_service.SeedAdmin.Laws.{IsAdminOf, main-IsAdminOf}
use baja_valle_service.Sample.{app, laws, start, account, one_user, ana_email}

abbrev seed : Seed
seed = record { email = some ana_email; password = none; first_name = none; last_name = none }

promoted : main app seed one_user ≡ (ok tt, (main app seed one_user).1)
unfolding app start one_user account main find_below add_user set_user Users.find_by_email
    Users.update_role Users.email_hash Users.normalize_email blind_index trim sample encode
promoted = refl

main-IsAdminOf_example : IsAdminOf app laws ana_email (main app seed one_user).1
main-IsAdminOf_example =
    main-IsAdminOf app laws seed ana_email one_user (main app seed one_user).1 refl promoted
