-- ===== src/SeedAdmin/Laws.antt =====
-- What the script leaves behind.
use baja_valle_service.Prelude.{
  Bool, some_inj, ◌≡◌, refl, sym, ap, ◌∙◌, Option, none, some, [], ◌∷◌, inl, inr, arith, ==_refl,
}
use baja_valle_service.Text.{Text, text_eq}
use baja_valle_service.Text.Laws.{text_eq_iff}
use baja_valle_service.Prisma.{Role, User, no_change, apply_patch}
use baja_valle_service.Exec.{ok, Result-cases}
use baja_valle_service.App.{App, AppLaws, State}
use baja_valle_service.Password.{assert_acceptable, hash}
use baja_valle_service.Users
use baja_valle_service.Users.{NewUser, email_hash, find_by_email}
use baja_valle_service.Users.Accounts.{create-inv, find_by_email-create, find_by_email-eq}
use baja_valle_service.SeedAdmin.{
  Seed, given_password, seed_new, seed_found, seed_email, new_admin, main,
}

module _ (app : App) (laws : AppLaws app) where
  open laws use {prisma_laws}

  -- The account of an email is an administrator's.
  pub record IsAdminOf (email : Text) (w : State app) : Type 0 where
    pub user : User
    pub found : find_by_email app email w ≡ (ok (some user), w)
    pub admin : user.role ≡ Role.admin

  -- The role of an account that `create` returned.
  role-create :
      (new : NewUser) (w w' : State app) (u : User)
      → Users.create app new w ≡ (ok u, w')
      → new.role ≡ some Role.admin
      → u.role ≡ Role.admin
  role-create new w w' u e given =
      let (email_enc, first_enc, last_enc, w1, w2, w3, e1, e2, e3, written) =
        create-inv app laws new w w' u e in
      let (row, _, _, _) = prisma_laws.user_create_ok _ w3.db w'.db u written in
      ap (λ (v : User). v.role) row ∙ ground arith

  seed_new-IsAdminOf :
      (seed : Seed) (email : Text) (w w' : State app)
      → seed_new app seed email w ≡ (ok tt, w')
      → IsAdminOf email w'
  unfolding seed_new
  seed_new-IsAdminOf seed email w w' e = elim (Result-cases (given_password seed.password)) [
    | inl (x, bad) ↦ ground arith
    | inr (password, given) ↦
        elim (Result-cases
          (assert_acceptable app.node app.common_passwords password (some email))) [
            | inl (x, bad) ↦ ground arith
            | inr (t, accepted) ↦ elim (Result-cases (hash app.node password w).0) [
              | inl (x, bad) ↦ ground arith
              | inr (h, hashed) ↦
                  let v = (hash app.node password w).1 in
                  let new = new_admin seed email h in
                  elim (Result-cases (Users.create app new v).0) [
                    | inl (x, bad) ↦ ground arith
                    | inr (user, made) ↦
                        let created : Users.create app new v ≡ (ok user, w') = ground arith in
                        record {
                          user = user;
                          found = find_by_email-create app laws new email v w' user created refl;
                          admin = role-create new v w' user created refl;
                        }
                  ]
            ]
          ]
  ]

  -- The role of an account that is there is changed, and it is found as before.
  seed_found-IsAdminOf :
      (seed : Seed) (email : Text) (o : Option User) (w w' : State app)
      → find_by_email app email w ≡ (ok o, w)
      → seed_found app seed email o w ≡ (ok tt, w')
      → IsAdminOf email w'
  unfolding seed_found find_by_email Users.update_role
  seed_found-IsAdminOf seed email none w w' found e = seed_new-IsAdminOf seed email w w' e
  seed_found-IsAdminOf seed email (some u) w w' found e =
      let test : User → Bool = λ v. text_eq v.email_hash (email_hash app email) in
      let (there, hit) = prisma_laws.user_find_some test w.db u (ground arith) in
      let patch = record no_change { role = some Role.admin } in
      elim (Result-cases (app.prisma.user_update u.id patch w.db).0) [
        | inl (x, bad) ↦ ground arith
        | inr (u', done) ↦
            let (old, was, row, users, sessions) =
              prisma_laws.user_update_ok u.id patch w.db w'.db u' (ground arith) in
            let same : old ≡ u = some_inj (sym was ∙ there) in
            let new : u' ≡ apply_patch patch u'.updated_at u =
              row ∙ ap (apply_patch patch u'.updated_at) same in
            record {
              user = u';
              found =
                  find_by_email-eq app laws email w' u.id u' (users u.id ∙ rw (==_refl u.id))
                    (ap (λ (v : User). v.email_hash) new ∙ (text_eq_iff _ _).0 hit);
              admin = ap (λ (v : User). v.role) new;
            }
      ]

  seed_email-IsAdminOf :
      (seed : Seed) (email : Text) (w w' : State app)
      → seed_email app seed (some email) w ≡ (ok tt, w')
      → IsAdminOf email w'
  unfolding seed_email find_by_email
  seed_email-IsAdminOf seed [] w w' e = cc
  seed_email-IsAdminOf seed (c ∷ s) w w' e = seed_found-IsAdminOf seed (c ∷ s) _ w w' refl e

  -- A run of the script that returns leaves an account with the email that it was given, and that
  -- account is an administrator's, whether it was there before or not.
  pub main-IsAdminOf :
      (seed : Seed) (email : Text) (w w' : State app)
      → seed.email ≡ some email
      → main app seed w ≡ (ok tt, w')
      → IsAdminOf email w'
  unfolding main
  main-IsAdminOf seed email w w' given e =
      seed_email-IsAdminOf seed email w w' (ap (λ o. seed_email app seed o w) (sym given) ∙ e)
