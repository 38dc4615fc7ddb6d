-- ===== src/Auth/Repeated.antt =====
-- Failed logins in a row: the lock after five.
use baja_valle_service.Prelude.{
  ℕ, ◌+◌, ◌≤◌, ◌≡◌, ap, ◌∙◌, false, Option, none, some, List, [], ◌∷◌, All, arith, length,
}
use baja_valle_service.Text.{Text}
use baja_valle_service.Prisma.{User}
use baja_valle_service.Exec.{ok}
use baja_valle_service.Password
use baja_valle_service.App.{App, AppLaws, State}
use baja_valle_service.Users
use baja_valle_service.Auth.{lock_ms, LoginDto, is_locked, login}
use baja_valle_service.Auth.Lockout.{after_failure, login_wrong}

-- Logins one after the other, whatever they answer.
unfoldable pub login_many : (app : App) → List LoginDto → State app → State app
login_many app [] w = w
login_many app (dto ∷ dtos) w = login_many app dtos (login app dto none w).1

-- A login for the account with this blind index whose password does not verify.
pub record IsWrong (app : App) (hash stored : Text) (dto : LoginDto) : Type 0 where
  pub same : hash ≡ Users.email_hash app dto.email
  pub wrong : (v : State app) → Password.verify app.node stored dto.password v ≡ (ok false, v)

-- The row with so many failures, updated at a date.
abbrev counted : User → ℕ → ℕ → User
counted u n now = record u { failed_login_attempts = n; updated_at = now }

counted_as :
    {n m : ℕ} (u : User) (now : ℕ)
    → n ≡ m
    → ◌≡◌ {A = Option User} (some (counted u n now)) (some (counted u m now))
counted_as u now e = λ i. some (counted u (e i) now)

after_few :
    (time now : ℕ) (u : User)
    → u.failed_login_attempts + 1 ≤ 4
    → after_failure time now u ≡ counted u (u.failed_login_attempts + 1) now
unfolding after_failure
after_few time now u h = ground arith

after_many :
    (time now : ℕ) (u : User)
    → 4 ≤ u.failed_login_attempts
    → after_failure time now u ≡ record u {
      failed_login_attempts = 0;
      locked_until = some (time + lock_ms);
      updated_at = now;
    }
unfolding after_failure
after_many time now u h = ground arith

module _ (app : App) (laws : AppLaws app) where
  -- One wrong login of an account with no lock date.
  wrong_once :
      (dto : LoginDto) (u : User) (w : State app)
      → app.prisma.user w.db u.id ≡ some u
      → u.locked_until ≡ none
      → IsWrong app u.email_hash u.password_hash dto
      → (now : ℕ) × (app.prisma.user (login app dto none w).1.db u.id
          ≡ some (after_failure (app.node.clock w.ticks) now u))
  unfolding is_locked
  wrong_once dto u w row unlocked bad =
      let (w', now, failed, written, _) =
        login_wrong app laws dto none u w w (record { row = row; hash = bad.same }) (ground arith)
          (bad.wrong w) in
      (now, rw failed written.row)

  -- Up to four wrong logins are counted.
  login_many_counts :
      (dtos : List LoginDto) (u : User) (w : State app)
      → app.prisma.user w.db u.id ≡ some u
      → u.locked_until ≡ none
      → All (IsWrong app u.email_hash u.password_hash) dtos
      → u.failed_login_attempts + length dtos ≤ 4
      → (now : ℕ) × (app.prisma.user (login_many app dtos w).db u.id
          ≡ some (counted u (u.failed_login_attempts + length dtos) now))
  unfolding login_many
  login_many_counts [] u w row unlocked bad few =
      (u.updated_at, row ∙ counted_as u u.updated_at (omega arith))
  login_many_counts (dto ∷ dtos) u w row unlocked (b, bad) few =
      let (now, step) = wrong_once dto u w row unlocked b in
      let next : User = counted u (u.failed_login_attempts + 1) now in
      let (later, rest) =
        login_many_counts dtos next (login app dto none w).1
          (step ∙ ap some (after_few (app.node.clock w.ticks) now u (omega arith))) unlocked bad
          (omega arith) in
      (later, rest ∙ counted_as u later (omega arith))

  -- Five wrong logins in a row, of an account with no lock date and no failure counted, lock it for 15
  -- minutes from a reading of the clock in the last of them, and set the count back; nothing else of the
  -- row changes but the date of its update.
  pub login_many_locks :
      (dtos : List LoginDto) (last : LoginDto) (u : User) (w : State app)
      → app.prisma.user w.db u.id ≡ some u
      → u.locked_until ≡ none
      → u.failed_login_attempts ≡ 0
      → length dtos ≡ 4
      → All (IsWrong app u.email_hash u.password_hash) dtos
      → IsWrong app u.email_hash u.password_hash last
      → let v = login_many app dtos w in
        (now : ℕ) × (app.prisma.user (login app last none v).1.db u.id
          ≡ some (record u {
            failed_login_attempts = 0;
            locked_until = some (app.node.clock v.ticks + lock_ms);
            updated_at = now;
          }))
  login_many_locks dtos last u w row unlocked zero four bad b =
      let v : State app = login_many app dtos w in
      let (before, counts) = login_many_counts dtos u w row unlocked bad (omega arith) in
      let fourth : User = counted u (u.failed_login_attempts + length dtos) before in
      let (now, locks) = wrong_once last fourth v counts unlocked b in
      (now, locks ∙ ap some (after_many (app.node.clock v.ticks) now fourth (omega arith)))
