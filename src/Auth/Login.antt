-- ===== src/Auth/Login.antt =====
-- A login that succeeds.
use baja_valle_service.Prelude.{
  ℕ, ◌+◌, ◌≡◌, ◌≢◌, ◌≤◌, refl, sym, ap, ◌∙◌, true, false, ◌||◌, Option, none, some, inl, inr, arith,
  Bool-cases, ltb, is_some,
}
use baja_valle_service.Text.{Text}
use baja_valle_service.Prisma.{User, Change, no_change, apply_patch}
use baja_valle_service.Exec.{ok}
use baja_valle_service.Exec.Laws.{>>=-ok}
use baja_valle_service.Password
use baja_valle_service.Password.Laws.{hash-eq}
use baja_valle_service.App.{App, AppLaws, State}
use baja_valle_service.Users
use baja_valle_service.Users.{UserProfile}
use baja_valle_service.Users.Accounts.{find_by_email-eq}
use baja_valle_service.Users.Updates.{Writes, Writes-trans, user_update_lem}
use baja_valle_service.Auth.{
  AuthResponse, LoginDto, clear_if_failed, rehash_if_needed, login_verified, is_locked, login,
}
use baja_valle_service.Auth.Lockout.{Owns}
use baja_valle_service.Auth.Opening.{IsFree, Opens, start_session_lem}

unlocked_of : (o : Option ℕ) → is_some o ≡ false → o ≡ none
unlocked_of none e = refl
unlocked_of (some t) e = cc

module _ (app : App) (laws : AppLaws app) where
  open laws use {prisma_laws}

  -- A row without a trace of failed logins.
  pub record IsClear (u u' : User) : Type 0 where
    pub id : u'.id ≡ u.id
    pub failed : u'.failed_login_attempts ≡ 0
    pub unlocked : u'.locked_until ≡ none

  clear_if_failed_lem :
      (u : User) (w : State app)
      → app.prisma.user w.db u.id ≡ some u
      → (u' : User) × (w' : State app) × (clear_if_failed app u w ≡ (ok tt, w'))
        × Writes app u.id u' w.db w'.db
        × IsClear u u'
  unfolding clear_if_failed Users.clear_failed_logins
  clear_if_failed_lem u w there =
      let patch = record no_change {
        failed_login_attempts = some (Change.set 0);
        locked_until = some none;
      } in
      elim (Bool-cases (ltb 0 u.failed_login_attempts || is_some u.locked_until)) [
        | inl traces ↦
            let (now, db', written, writes) =
              user_update_lem app laws u.id patch u w.db there refl refl refl in
            (
              apply_patch patch now u,
              record w { db = db' },
              ground arith,
              writes,
              record { id = refl; failed = refl; unlocked = refl },
            )
        | inr clean ↦ (
          u,
          w,
          ground arith,
          record { row = there; others = λ j n. refl; sessions = λ j. refl },
          record {
            id = refl;
            failed = ground arith;
            unlocked = unlocked_of u.locked_until (ground arith);
          },
        )
      ]

  rehash_if_needed_lem :
      (u u₁ : User) (password : Text) (w : State app)
      → app.prisma.user w.db u.id ≡ some u₁
      → IsClear u u₁
      → (u' : User) × (w' : State app) × (rehash_if_needed app u password w ≡ (ok tt, w'))
        × Writes app u.id u' w.db w'.db
        × IsClear u u'
  unfolding rehash_if_needed Users.update_password_hash
  rehash_if_needed_lem u u₁ password w there clear =
      elim (Bool-cases (Password.needs_rehash app.node u.password_hash)) [
        | inl old ↦
            let (key, _, _, hashed) = hash-eq app.node laws.node_laws password w in
            let h =
              Password.phc_text app.node Password.default_params
                (app.node.random_bytes w.draws Password.salt_bytes) key in
            let patch = record no_change { password_hash = some h } in
            let (now, db', written, writes) =
              user_update_lem app laws u.id patch u₁ w.db there refl refl refl in
            (
              apply_patch patch now u₁,
              record w { db = db'; draws = w.draws + 1 },
              ground arith,
              writes,
              record { id = clear.id; failed = clear.failed; unlocked = clear.unlocked },
            )
        | inr fresh ↦ (
          u₁,
          w,
          ground arith,
          record { row = there; others = λ j n. refl; sessions = λ j. refl },
          clear,
        )
      ]

  -- What a login has done that was answered with `r`.
  pub record IsLogin (u : User) (w w' : State app) (r : AuthResponse) : Type 0 where
    pub opens : Opens app laws u w'.db r
    pub row : User
    pub stored : app.prisma.user w'.db u.id ≡ some row
    pub clear : IsClear u row
    pub others : (j : ℕ) → u.id ≢ j → app.prisma.user w'.db j ≡ app.prisma.user w.db j

  login_verified_lem :
      (u : User) (profile : UserProfile) (password : Text) (user_agent : Option Text)
      (w : State app)
      → app.prisma.user w.db u.id ≡ some u
      → Users.to_profile app u ≡ ok profile
      → IsFree app laws w.db
      → (r : AuthResponse) × (w' : State app) × (login_verified app u password user_agent w
          ≡ (ok r, w'))
        × IsLogin u w w' r
  unfolding login_verified IsFree
  login_verified_lem u profile password user_agent w there known free =
      let (u₁, w₁, cleared, writes₁, clear₁) = clear_if_failed_lem u w there in
      let (u₂, w₂, rehashed, writes₂, clear₂) =
        rehash_if_needed_lem u u₁ password w₁ writes₁.row clear₁ in
      let both = Writes-trans app u.id u₁ u₂ w.db w₁.db w₂.db writes₁ writes₂ in
      let (r, w', started, opens, users) =
        start_session_lem app laws u u₂ profile user_agent w₂ both.row known
          (λ draw i s e. free draw i s (sym (both.sessions i) ∙ e)) in
      (
        r,
        w',
        >>=-ok (clear_if_failed app u) _ cleared
            ∙ (>>=-ok (rehash_if_needed app u password) _ rehashed ∙ started),
        record {
          opens = opens;
          row = u₂;
          stored = users u.id ∙ both.row;
          clear = clear₂;
          others = λ j n. users j ∙ both.others j n;
        },
      )

  -- The password is the one of the account.
  unfoldable pub IsRight : User → Text → Type 0
  IsRight u password =
      (v : State app) → Password.verify app.node u.password_hash password v ≡ (ok true, v)

  is_locked_lem :
      (until : Option ℕ) (w : State app)
      → ((t : ℕ) → until ≡ some t → t ≤ app.node.clock w.ticks)
      → (v : State app) × (is_locked app until w ≡ (ok false, v)) × (v.db ≡ w.db)
  unfolding is_locked
  is_locked_lem none w over = (w, refl, refl)
  is_locked_lem (some t) w over =
      (record w { ticks = w.ticks + 1 }, ground (arith, over t refl), refl)

  -- A login with the right password is answered, when the account is not locked, its profile decrypts
  -- and no session has a token that can be drawn: an open session of the user is written whose token is
  -- the one of the answer, the access token names it, and the failed logins are forgotten.
  pub login_right :
      (dto : LoginDto) (user_agent : Option Text) (u : User) (profile : UserProfile) (w : State app)
      → Owns app dto.email u w
      → IsRight u dto.password
      → ((t : ℕ) → u.locked_until ≡ some t → t ≤ app.node.clock w.ticks)
      → Users.to_profile app u ≡ ok profile
      → IsFree app laws w.db
      → (r : AuthResponse) × (w' : State app) × (login app dto user_agent w ≡ (ok r, w'))
        × IsLogin u w w' r
  unfolding login IsRight IsFree
  login_right dto user_agent u profile w own right over known free =
      let (v, unlocked, same) = is_locked_lem u.locked_until w over in
      let (r, w', done, is_login) =
        login_verified_lem u profile dto.password user_agent v
          (ap (λ db. app.prisma.user db u.id) same ∙ own.row) known
          (λ draw i s e. free draw i s (ap (λ db. app.prisma.session db i) (sym same) ∙ e)) in
      (
        r,
        w',
        ground (arith, find_by_email-eq app laws dto.email w u.id u own.row own.hash, right v),
        record {
          opens = is_login.opens;
          row = is_login.row;
          stored = is_login.stored;
          clear = is_login.clear;
          others = λ j n. is_login.others j n ∙ ap (λ db. app.prisma.user db j) same;
        },
      )
