-- ===== src/Profile/Tests.antt =====
-- Runs of the theorems on the own account, on the users of the sample application.
use baja_valle_service.Prelude.{
  arith, ◌≢◌, ℕ, ◌≡◌, ◌∙◌, refl, true, none, some, if◌then◌else◌, ◌==◌,
}
use baja_valle_service.Text.{Text, trim, split, includes, codes}
use baja_valle_service.Text.Laws.{text_eq_refl}
use baja_valle_service.Node.Sample.{
  sample, encode, sample_laws, copies, fit, length-copies, length-fit,
}
use baja_valle_service.Prisma.{User, UserPatch, no_change, apply_patch}
use baja_valle_service.Prisma.Laws.{unless_owned}
use baja_valle_service.Prisma.Memory.{add_user, set_user, drop_user}
use baja_valle_service.Prisma.Memory.Find.{find_below}
use baja_valle_service.Exec.{ok}
use baja_valle_service.Password
use baja_valle_service.Password.Laws.{verify-phc_text}
use baja_valle_service.App.{State}
use baja_valle_service.Encryption.{
  decrypt, blind_index, encrypt, format, seal, get, current_version,
}
use baja_valle_service.Users
use baja_valle_service.Users.Field
use baja_valle_service.Sessions
use baja_valle_service.Sessions.{is_open_of}
use baja_valle_service.Auth.{AuthUser, verify_current_password}
use baja_valle_service.Profile.{change_password, change_email, delete}
use baja_valle_service.Profile.Email.{change_email_lem}
use baja_valle_service.Users.Email.{IsEmailChange}
use baja_valle_service.Profile.Laws.{IsPasswordChange, change_password_lem, delete_lem}
use baja_valle_service.Prisma.{Role}
use baja_valle_service.Sample.{
  app, laws, start, account, ana, ana_email, any-IsText, sealed, opens, one_user, one_user-ana,
}

abbrev user : AuthUser
user = record { id = 0; role = Role.client; session_id = 0 }

abbrev password : Text
password = codes "hidden word"

right : (v : State app) → Password.verify app.node ana.password_hash password v ≡ (ok true, v)
unfolding ana account app sample
right v =
    verify-phc_text sample sample_laws (copies 16 1) (fit 32 password) (fit 32 password) password v
      (length-copies 16 1) (length-fit 32 password) refl (length-fit 32 password)
    ∙ rw (text_eq_refl (fit 32 password)) refl

verified : verify_current_password app 0 password one_user ≡ (ok ana, one_user)
unfolding verify_current_password Users.find_by_id
verified = rw (one_user-ana, right one_user) refl

abbrev without_ana : State app
unfolding app
without_ana = record one_user { db = drop_user 0 one_user.db }

deleted : delete app user password one_user ≡ (ok tt, without_ana)
unfolding delete Users.delete app
deleted = rw verified (rw one_user-ana refl)

delete_lem_example :
    (u : User) × (app.prisma.user one_user.db 0 ≡ some u)
    × ((v : State app) × (Password.verify app.node u.password_hash password one_user
          ≡ (ok true, v)))
    × ((j : ℕ)
        → app.prisma.user without_ana.db j
          ≡ (if 0 == j then none else app.prisma.user one_user.db j))
    × ((j : ℕ)
        → app.prisma.session without_ana.db j ≡ unless_owned 0 (app.prisma.session one_user.db j))
delete_lem_example = delete_lem app laws user password one_user without_ana deleted

abbrev new_password : Text
new_password = codes "Secret Tree"

profile_of :
    (u : User) (email first last : Text)
    → decrypt app.node app.encryption_keys u.email_enc Field.email ≡ ok email
    → decrypt app.node app.encryption_keys u.first_name_enc Field.first_name ≡ ok first
    → decrypt app.node app.encryption_keys u.last_name_enc Field.last_name ≡ ok last
    → Users.to_profile app u
      ≡ ok (record {
        id = u.id;
        email = email;
        first_name = first;
        last_name = last;
        role = u.role;
        created_at = u.created_at;
      })
unfolding Users.to_profile
profile_of u email first last e f l = ground arith

shown :
    Users.to_profile app ana
    ≡ ok (record {
      id = 0;
      email = ana_email;
      first_name = codes "Ana";
      last_name = codes "Sosa";
      role = Role.client;
      created_at = 0;
    })
unfolding ana account
shown =
    profile_of ana ana_email (codes "Ana") (codes "Sosa") (opens ana_email Field.email)
      (opens (codes "Ana") Field.first_name) (opens (codes "Sosa") Field.last_name)

acceptable :
    Password.assert_acceptable app.node app.common_passwords new_password (some ana_email) ≡ ok tt
unfolding app sample includes split Password.assert_acceptable Password.local_part
acceptable = refl

patch : UserPatch
patch = record no_change {
  password_hash = some (
      Password.phc_text sample Password.default_params (sample.random_bytes 0 16)
        (fit 32 new_password));
}

updated :
    (now : ℕ) × (db' : app.prisma.Db) × (app.prisma.user_update 0 patch one_user.db
      ≡ (ok (apply_patch patch now ana), db'))
unfolding patch
updated = laws.prisma_laws.user_update_total 0 patch one_user.db ana one_user-ana refl refl refl

changed : (w' : State app) × (change_password app user password new_password one_user ≡ (ok tt, w'))
unfolding change_password Users.update_password_hash Sessions.revoke_all_for_user Password.hash app
    sample patch one_user start
changed = (
  record one_user {
    draws = 1;
    ticks = 1;
    db = (app.prisma.session_revoke_many (is_open_of 0 (some 0)) 0 updated.1).1;
  },
  rw verified (rw shown (rw acceptable (rw (updated.2) refl))),
)

change_password_lem_example :
    (u : User) × (h : Text) × (time now : ℕ) × (app.prisma.user one_user.db 0 ≡ some u)
    × (Password.verify app.node u.password_hash password one_user ≡ (ok true, one_user))
    × (new_password ≢ password)
    × ((v : State app) → Password.verify app.node h new_password v ≡ (ok true, v))
    × IsPasswordChange app user
        (record u { password_hash = h; updated_at = now })
        time
        one_user.db
        changed.0.db
change_password_lem_example =
    change_password_lem app laws user password new_password one_user changed.0 changed.1

abbrev eva_email : Text
eva_email = codes "eva@x.mx"

eva : User
eva = record ana {
  email_hash = Users.email_hash app eva_email;
  email_enc = sealed eva_email Field.email;
  updated_at = 1;
}

abbrev moved_world : State app
moved_world = (Users.update_email app 0 eva_email one_user).1

moved : Users.update_email app 0 eva_email one_user ≡ (ok eva, moved_world)
unfolding app start one_user account ana eva add_user find_below set_user Users.update_email
    Users.email_hash Users.normalize_email blind_index trim sample encode encrypt format seal get
    current_version
moved = refl

eva_profile :
    Users.to_profile app eva
    ≡ ok (record {
      id = 0;
      email = eva_email;
      first_name = codes "Ana";
      last_name = codes "Sosa";
      role = Role.client;
      created_at = 0;
    })
unfolding eva ana account
eva_profile =
    profile_of eva eva_email (codes "Ana") (codes "Sosa") (opens eva_email Field.email)
      (opens (codes "Ana") Field.first_name) (opens (codes "Sosa") Field.last_name)

emailed : change_email app user password eva_email one_user ≡ (
  ok (record {
    id = 0;
    email = eva_email;
    first_name = codes "Ana";
    last_name = codes "Sosa";
    role = Role.client;
    created_at = 0;
  }),
  moved_world,
)
unfolding change_email
emailed = rw verified (rw moved (rw eva_profile refl))

change_email_lem_example :
    (u u' : User) × (v : State app) × (Password.verify app.node u.password_hash password one_user
      ≡ (ok true, v))
    × IsEmailChange app laws 0 eva_email u u' one_user moved_world
    × (eva_email ≡ Users.normalize_email app.node eva_email)
change_email_lem_example =
    change_email_lem app laws user password eva_email one_user moved_world
      (record {
        id = 0;
        email = eva_email;
        first_name = codes "Ana";
        last_name = codes "Sosa";
        role = Role.client;
        created_at = 0;
      })
      (any-IsText (Users.normalize_email app.node eva_email)) emailed
