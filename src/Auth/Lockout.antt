-- ===== src/Auth/Lockout.antt =====
-- Failed logins: one answer for all of them, and the lock after five.
use baja_valle_service.Prelude.{
  ℕ, ◌+◌, ◌<◌, ◌≡◌, ◌≢◌, refl, ap, ◌∙◌, Bool, false, Option, none, some, ◌∷◌, inl, inr, arith, leb,
  if◌then◌else◌, Bool-cases,
}
use mathlib.Core.Path.{subst}
use baja_valle_service.Text.{Text}
use baja_valle_service.Prisma.{User, UserPatch, Change, no_change, apply_patch}
use baja_valle_service.Exec.{ok, err}
use baja_valle_service.World.{Warning}
use baja_valle_service.Password
use baja_valle_service.Password.Dummy.{IsReady, verify_against_dummy_lem}
use baja_valle_service.App.{App, AppLaws, State}
use baja_valle_service.Users
use baja_valle_service.Users.Accounts.{find_by_email-eq, find_by_email-none}
use baja_valle_service.Users.Updates.{Writes, Writes-trans, user_update_lem}
use baja_valle_service.Auth.{
  max_failed_logins, lock_ms, invalid_credentials, LoginDto, register_failed_login, is_locked,
  login,
}

-- The account that an email belongs to.
pub record Owns (app : App) (email : Text) (u : User) (w : State app) : Type 0 where
  pub row : app.prisma.user w.db u.id ≡ some u
  pub hash : u.email_hash ≡ Users.email_hash app email

-- The row of a user behind one more failed login, with the clock read at `time`, and updated at `now`.
unfoldable pub after_failure : ℕ → ℕ → User → User
after_failure time now u =
    if leb max_failed_logins (u.failed_login_attempts + 1)
    then record u {
      failed_login_attempts = 0;
      locked_until = some (time + lock_ms);
      updated_at = now;
    }
    else record u { failed_login_attempts = u.failed_login_attempts + 1; updated_at = now }

module _ (app : App) (laws : AppLaws app) where
  open laws use {prisma_laws}

  -- A login with an email that no account has is answered like every other that fails, and writes
  -- nothing, if the dummy hash, once made, can be verified against.
  pub login_unknown :
      (dto : LoginDto) (user_agent : Option Text) (w : State app)
      → ((i : ℕ) (u : User)
          → app.prisma.user w.db i ≡ some u
          → u.email_hash ≢ Users.email_hash app dto.email)
      → IsReady app.node w
      → (w' : State app) × (login app dto user_agent w ≡ (err invalid_credentials, w'))
        × (w'.db ≡ w.db)
  unfolding login
  login_unknown dto user_agent w unknown ready =
      let (h, draws, checked, _) =
        verify_against_dummy_lem app.node laws.node_laws dto.password w ready in
      (
        record w { draws = draws; dummy_hash = some h },
        ground (arith, find_by_email-none app laws dto.email w unknown, checked),
        refl,
      )

  -- A login for a locked account, before the lock ends, is answered like every other that fails,
  -- whatever the password, and writes nothing, if the dummy hash, once made, can be verified against.
  pub login_locked_refused :
      (dto : LoginDto) (user_agent : Option Text) (u : User) (until : ℕ) (w : State app)
      → Owns app dto.email u w
      → u.locked_until ≡ some until
      → app.node.clock w.ticks < until
      → IsReady app.node w
      → (w' : State app) × (login app dto user_agent w ≡ (err invalid_credentials, w'))
        × (w'.db ≡ w.db)
  unfolding login is_locked
  login_locked_refused dto user_agent u until w own lock early ready =
      let v : State app = record w { ticks = w.ticks + 1 } in
      let (h, draws, checked, _) =
        verify_against_dummy_lem app.node laws.node_laws dto.password v
          (record { dummy = ready.dummy }) in
      (
        record v { draws = draws; dummy_hash = some h; log = Warning.locked_login u.id ∷ w.log },
        ground (arith, find_by_email-eq app laws dto.email w u.id u own.row own.hash, checked),
        refl,
      )

  register_failed_login_lem :
      (u : User) (w : State app)
      → app.prisma.user w.db u.id ≡ some u
      → (w' : State app) × (now : ℕ) × (register_failed_login app u.id w ≡ (ok tt, w'))
        × Writes app u.id (after_failure (app.node.clock w.ticks) now u) w.db w'.db
        × (w'.dummy_hash ≡ w.dummy_hash)
  unfolding register_failed_login after_failure Users.record_failed_login Users.lock
  register_failed_login_lem u w e =
      let once : UserPatch = record no_change {
        failed_login_attempts = some (Change.increment 1);
      } in
      let (now, db1, counted, one) = user_update_lem app laws u.id once u w.db e refl refl refl in
      let v : User = apply_patch once now u in
      let time : ℕ = app.node.clock w.ticks in
      elim (Bool-cases (leb max_failed_logins (u.failed_login_attempts + 1))) [
        | inr few ↦ (
          record w {
            db = db1;
            log = Warning.failed_login (u.failed_login_attempts + 1) u.id ∷ w.log;
          },
          now,
          ground (arith, counted),
          rw few one,
          refl,
        )
        | inl many ↦
            let locking : UserPatch = record no_change {
              failed_login_attempts = some (Change.set 0);
              locked_until = some (some (time + lock_ms));
            } in
            let (later, db2, locked, two) =
              user_update_lem app laws u.id locking v db1 one.row refl refl refl in
            (
              record w { db = db2; ticks = w.ticks + 1; log = Warning.account_locked u.id ∷ w.log },
              later,
              ground (arith, counted, locked),
              rw many (Writes-trans app u.id v (apply_patch locking later v) w.db db1 db2 one two),
              refl,
            )
      ]

  is_locked_same :
      (o : Option ℕ) (w v : State app) (b : Bool)
      → is_locked app o w ≡ (ok b, v)
      → (v.db ≡ w.db) × (v.dummy_hash ≡ w.dummy_hash)
  unfolding is_locked
  is_locked_same none w v b e = ground arith
  is_locked_same (some until) w v b e = ground arith

  -- A wrong password for an account that is not locked has the same answer as an unknown email; the
  -- row of the account counts one more failure or, from the fifth on, is locked for 15 minutes with the
  -- count back at 0; but for that and the date of its update it is as it was, and no other user and no
  -- session changes.
  pub login_wrong :
      (dto : LoginDto) (user_agent : Option Text) (u : User) (w v : State app)
      → Owns app dto.email u w
      → is_locked app u.locked_until w ≡ (ok false, v)
      → Password.verify app.node u.password_hash dto.password v ≡ (ok false, v)
      → (w' : State app) × (now : ℕ) × (login app dto user_agent w ≡ (err invalid_credentials, w'))
        × Writes app u.id (after_failure (app.node.clock v.ticks) now u) w.db w'.db
        × (w'.dummy_hash ≡ w.dummy_hash)
  unfolding login
  login_wrong dto user_agent u w v own unlocked wrong =
      let (same, kept_dummy) = is_locked_same u.locked_until w v false unlocked in
      let (w', now, failed, written, kept) =
        register_failed_login_lem u v (ap (λ db. app.prisma.user db u.id) same ∙ own.row) in
      (
        w',
        now,
        ground (arith, find_by_email-eq app laws dto.email w u.id u own.row own.hash, failed),
        subst (λ db. Writes app u.id (after_failure (app.node.clock v.ticks) now u) db w'.db) same
            written,
        kept ∙ kept_dummy,
      )
