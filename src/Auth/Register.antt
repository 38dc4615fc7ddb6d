-- ===== src/Auth/Register.antt =====
-- `register` of src/auth/auth.service.ts: the account and the session that it makes.
use baja_valle_service.Prelude.{ℕ, ◌+◌, ◌≡◌, ◌≢◌, sym, ap, ◌∙◌, ==_refl, Option, none, some, arith}
use baja_valle_service.Text.{Text}
use baja_valle_service.Prisma.{Role, User}
use baja_valle_service.Exec.{ok}
use baja_valle_service.Password
use baja_valle_service.App.{App, AppLaws, State}
use baja_valle_service.Users.{NewUser, email_hash, find_by_email, normalize_email}
use baja_valle_service.Users.Field
use baja_valle_service.Users.Accounts.{find_by_email-eq, to_profile-create}
use baja_valle_service.Users.Creation.{create_lem}
use baja_valle_service.Profile.Laws.{hash-verifies}
use baja_valle_service.Encryption.{blind_index}
use baja_valle_service.Auth.{AuthResponse, RegisterDto, register}
use baja_valle_service.Auth.Opening.{IsFree, Opens, start_session_lem}
use baja_valle_service.Auth.Login.{IsRight}

module _ (app : App) (laws : AppLaws app) where
  open laws use {prisma_laws}

  -- What a registration has done that was answered with `r`.
  pub record IsRegistration (dto : RegisterDto) (w w' : State app) (r : AuthResponse) : Type 0 where
    pub account : User
    pub opens : Opens app laws account w'.db r
    pub fresh : app.prisma.user w.db account.id ≡ none
    pub others : (j : ℕ) → account.id ≢ j → app.prisma.user w'.db j ≡ app.prisma.user w.db j
    pub found :
        (spelling : Text)
        → normalize_email app.node spelling ≡ normalize_email app.node dto.email
        → find_by_email app spelling w' ≡ (ok (some account), w')
    pub right : IsRight app laws account dto.password
    pub answer : r.user ≡ record {
      id = account.id;
      email = normalize_email app.node dto.email;
      first_name = dto.first_name;
      last_name = dto.last_name;
      role = Role.client;
      created_at = account.created_at;
    }

  -- The account that `register` creates.
  abbrev new_account : RegisterDto → Text → NewUser
  new_account dto h = record {
    email = dto.email;
    first_name = dto.first_name;
    last_name = dto.last_name;
    password_hash = h;
    role = none;
  }

  -- A registration is answered, when the password is acceptable, no account has the email, no
  -- session has a token that can be drawn, and UTF-8 carries the normalized email and the names: a
  -- new account is written and no other changes, every spelling of the email that normalizes alike
  -- finds it, its password is the one that was given, the answer has its profile with the role
  -- CLIENT, and a session of it is open whose token and access token are those of the answer.
  pub register_lem :
      (dto : RegisterDto) (user_agent : Option Text) (w : State app)
      → laws.node_laws.IsText (normalize_email app.node dto.email)
      → laws.node_laws.IsText dto.first_name
      → laws.node_laws.IsText dto.last_name
      → Password.assert_acceptable app.node app.common_passwords dto.password (some dto.email)
        ≡ ok tt
      → ((i : ℕ) (v : User)
          → app.prisma.user w.db i ≡ some v
          → v.email_hash ≢ email_hash app dto.email)
      → IsFree app laws w.db
      → (r : AuthResponse) × (w' : State app) × (register app dto user_agent w ≡ (ok r, w'))
        × IsRegistration dto w w' r
  unfolding register IsRight IsFree email_hash
  register_lem dto user_agent w te tf tl acceptable unknown free =
      let (h, hashed, verifies) = hash-verifies app laws w dto.password in
      let w₁ : State app = record w { draws = w.draws + 1 } in
      let new : NewUser = new_account dto h in
      let (u, w₂, created, is_new) = create_lem app laws new w₁ unknown in
      let profile = to_profile-create app laws new w₁ w₂ u te tf tl created in
      let there : app.prisma.user w₂.db u.id ≡ some u = is_new.users u.id ∙ rw (==_refl u.id) in
      let (r, w', started, opens, users) =
        start_session_lem app laws u u _ user_agent w₂ there profile
          (λ draw i s e. free draw i s (sym (is_new.sessions i) ∙ e)) in
      (
        r,
        w',
        ground (arith, acceptable, hashed, created, started),
        record {
          account = u;
          opens = opens;
          fresh = is_new.fresh;
          others = λ j n. users j ∙ is_new.users j ∙ ground arith;
          found = λ spelling same.
              find_by_email-eq app laws spelling w' u.id u (users u.id ∙ there) (
                is_new.hash
                ∙ ap (λ n. blind_index app.node app.blind_index_key n Field.email) (sym same));
          right =
              λ v. ap (λ h. Password.verify app.node h dto.password v) is_new.password ∙ verifies v;
          answer = cc (opens.profile, profile);
        },
      )
