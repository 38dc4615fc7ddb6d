-- ===== src/Profile/Laws.antt =====
-- What the requests on the own account change.
use mathlib.Core.Path.{subst}
use baja_valle_service.Prelude.{
  ◌+◌, ◌≢◌, some_inj, ==_refl, ==_iff, ℕ, ℕ, ◌≡◌, sym, ap, ◌∙◌, Bool, true, none, some, inl, inr,
  arith, ◌==◌, Bool-cases, Option-cases, if◌then◌else◌,
}
use baja_valle_service.Text.{Text, text_eq}
use baja_valle_service.Text.Laws.{text_eq_iff, text_eq_refl}
use baja_valle_service.Node.{Bytes}
use baja_valle_service.Prisma.{User, Session, UserPatch, no_change, apply_patch}
use baja_valle_service.Prisma.Laws.{revoke_if, unless_owned}
use baja_valle_service.Exec.{Result, ok, Result-cases}
use baja_valle_service.Password
use baja_valle_service.Password.Laws.{hash-eq, verify-phc_text}
use baja_valle_service.App.{App, AppLaws, State}
use baja_valle_service.Users
use baja_valle_service.Sessions
use baja_valle_service.Sessions.{is_open_of}
use baja_valle_service.Auth.{AuthUser, verify_current_password}
use baja_valle_service.Profile.{set_password, change_password, delete}

-- The patch of `updatePasswordHash`.
abbrev hash_patch : Text → UserPatch
hash_patch h = record no_change { password_hash = some h }

-- The own row is written, and the other open sessions of the user are revoked.
pub record IsPasswordChange (app : App) (user : AuthUser) (u : User) (time : ℕ)
    (db db' : app.prisma.Db) : Type 0 where
  pub row : app.prisma.user db' user.id ≡ some u
  pub others : (j : ℕ) → user.id ≢ j → app.prisma.user db' j ≡ app.prisma.user db j
  pub sessions :
      (j : ℕ)
      → app.prisma.session db' j
        ≡ revoke_if (is_open_of user.id (some user.session_id)) time (app.prisma.session db j)

-- A verification changes nothing.
pub verify_keeps :
    (app : App) (h password : Text) (w : State app) → (Password.verify app.node h password w).1 ≡ w
unfolding Password.verify
verify_keeps app h password w = elim (Option-cases (Password.parse app.node h)) [
  | inl malformed ↦ ground arith
  | inr (p, parsed) ↦
      elim (Option-cases (app.node.argon2id password p.salt Password.hash_bytes p.params)) [
        | inl failed ↦ ground arith
        | inr (key, derived) ↦ ground arith
      ]
]

module _ (app : App) (laws : AppLaws app) where
  open laws use {prisma_laws}

  -- verifyCurrentPassword returns only a stored user whose hash the password verifies against, and
  -- changes nothing.
  pub verify_current_password-inv :
      (i : ℕ) (password : Text) (w w' : State app) (u : User)
      → verify_current_password app i password w ≡ (ok u, w')
      → (app.prisma.user w.db i ≡ some u)
        × (Password.verify app.node u.password_hash password w ≡ (ok true, w'))
  unfolding verify_current_password Users.find_by_id
  verify_current_password-inv i password w w' u e = elim (Option-cases (app.prisma.user w.db i)) [
    | inl missing ↦ ground arith
    | inr (v, there) ↦ elim (Result-cases (Password.verify app.node v.password_hash password w).0) [
      | inl (f, bad) ↦ ground arith
      | inr (b, checked) ↦ elim (Bool-cases b) [
        | inl right ↦
            let same : v ≡ u = ground arith in
            let world : (Password.verify app.node v.password_hash password w).1 ≡ w' =
              ground arith in
            let good : Password.verify app.node v.password_hash password w ≡ (ok true, w') =
              ground arith in
            subst
              (λ (x : User).
                (app.prisma.user w.db i ≡ some x)
                × (Password.verify app.node x.password_hash password w ≡ (ok true, w')))
              same (there, good)
        | inr wrong ↦ ground arith
      ]
    ]
  ]

  -- A request to delete the account that returns has verified the current password, and afterwards
  -- the user and every session of the user are gone, and no other row has changed.
  pub delete_lem :
      (user : AuthUser) (password : Text) (w w' : State app)
      → delete app user password w ≡ (ok tt, w')
      → (u : User) × (app.prisma.user w.db user.id ≡ some u)
        × ((v : State app) × (Password.verify app.node u.password_hash password w ≡ (ok true, v)))
        × ((j : ℕ)
            → app.prisma.user w'.db j ≡ (if user.id == j then none else app.prisma.user w.db j))
        × ((j : ℕ) → app.prisma.session w'.db j ≡ unless_owned user.id (app.prisma.session w.db j))
  unfolding delete Users.delete
  delete_lem user password w w' e =
      elim (Result-cases (verify_current_password app user.id password w).0) [
        | inl (f, bad) ↦ ground arith
        | inr (u, verified) ↦
            let v : State app = (verify_current_password app user.id password w).1 in
            let (there, good) = verify_current_password-inv user.id password w v u (ground arith) in
            let same : v.db ≡ w.db =
              ap (λ (p : Result Bool × State app). p.1.db) (sym good)
              ∙ ap (λ (x : State app). x.db) (verify_keeps app u.password_hash password w) in
            elim (Result-cases (app.prisma.user_delete user.id v.db).0) [
              | inl (f, bad) ↦ ground arith
              | inr (x, deleted) ↦
                  let (users, sessions) =
                    prisma_laws.user_delete_ok user.id v.db w'.db x (ground arith) in
                  (
                    u,
                    there,
                    (v, good),
                    λ j.
                        users j
                        ∙ ap (λ db. if user.id == j then none else app.prisma.user db j) same,
                    λ j.
                        sessions j ∙ ap (λ db. unless_owned user.id (app.prisma.session db j)) same,
                  )
            ]
      ]

  -- What is hashed verifies, at any time.
  pub hash-verifies :
      (w : State app) (new : Text)
      → (h : Text) × (Password.hash app.node new w ≡ (ok h, record w { draws = w.draws + 1 }))
        × ((v : State app) → Password.verify app.node h new v ≡ (ok true, v))
  hash-verifies w new =
      let salt : Bytes = app.node.random_bytes w.draws Password.salt_bytes in
      let (key, derived, size, hashed) = hash-eq app.node laws.node_laws new w in
      (
        Password.phc_text app.node Password.default_params salt key,
        hashed,
        λ v.
            verify-phc_text app.node laws.node_laws salt key key new v
              (laws.node_laws.length-random_bytes w.draws Password.salt_bytes) size derived size
            ∙ ap (λ b. (ok b, v)) (text_eq_refl key),
      )

  password_written :
      (user : AuthUser) (h : Text) (u x : User) (time : ℕ) (db db'' : app.prisma.Db)
      → app.prisma.user db user.id ≡ some u
      → (app.prisma.user_update user.id (hash_patch h) db).0 ≡ ok x
      → db''
        ≡ (app.prisma.session_revoke_many
            (is_open_of user.id (some user.session_id))
            time
            (app.prisma.user_update user.id (hash_patch h) db).1).1
      → IsPasswordChange app user
          (record u { password_hash = h; updated_at = x.updated_at })
          time
          db
          db''
  password_written user h u x time db db'' there updated ended =
      let db' = (app.prisma.user_update user.id (hash_patch h) db).1 in
      let (old, row, patched, users, sessions) =
        prisma_laws.user_update_ok user.id (hash_patch h) db db' x
          (ap (λ (r : Result User). (r, db')) updated) in
      let stored : old ≡ u = some_inj (sym row ∙ there) in
      let test : Session → Bool = is_open_of user.id (some user.session_id) in
      record {
        row =
            ap (λ db. app.prisma.user db user.id) ended
            ∙ prisma_laws.user_revoke test time db' user.id
            ∙ users user.id
            ∙ ap (λ b. if b then some x else app.prisma.user db user.id) (==_refl user.id)
            ∙ ap some (patched ∙ ap (apply_patch (hash_patch h) x.updated_at) stored);
        others = λ j other.
            ap (λ db. app.prisma.user db j) ended
            ∙ prisma_laws.user_revoke test time db' j
            ∙ users j
            ∙ ground (arith, ==_iff user.id j);
        sessions = λ j.
            ap (λ db. app.prisma.session db j) ended
            ∙ prisma_laws.session_revoke test time db' j
            ∙ ap (revoke_if test time) (sessions j);
      }

  -- The part of the change behind the verification of the current password.
  set_password_lem :
      (user : AuthUser) (u : User) (new : Text) (v w' : State app)
      → app.prisma.user v.db user.id ≡ some u
      → set_password app user u new v ≡ (ok tt, w')
      → (h : Text) × (time now : ℕ) × ((y : State app)
          → Password.verify app.node h new y ≡ (ok true, y))
        × IsPasswordChange app user
            (record u { password_hash = h; updated_at = now })
            time
            v.db
            w'.db
  unfolding set_password Users.update_password_hash Sessions.revoke_all_for_user
  set_password_lem user u new v w' there e =
      let (h, hashed, verifies) = hash-verifies v new in
      elim (Result-cases (Users.to_profile app u)) [
        | inl (f, bad) ↦ ground arith
        | inr (profile, shown) ↦
            elim (Result-cases
              (Password.assert_acceptable app.node app.common_passwords new (some profile.email))) [
                | inl (f, bad) ↦ ground arith
                | inr (_, accepted) ↦
                    elim (Result-cases (app.prisma.user_update user.id (hash_patch h) v.db).0) [
                      | inl (f, bad) ↦ ground arith
                      | inr (x, updated) ↦ (
                        h,
                        app.node.clock v.ticks,
                        x.updated_at,
                        verifies,
                        password_written user h u x (app.node.clock v.ticks) v.db w'.db there
                            updated (ground arith),
                      )
                    ]
              ]
      ]

  -- A change of the password that returns has verified the current password, the new one is another,
  -- and afterwards the row has a hash that the new password verifies against and is otherwise as it was
  -- but for the date of its update, every open session of the user but the one of the request is
  -- revoked at one time, and all else stays as it is.
  pub change_password_lem :
      (user : AuthUser) (current new : Text) (w w' : State app)
      → change_password app user current new w ≡ (ok tt, w')
      → (u : User) × (h : Text) × (time now : ℕ) × (app.prisma.user w.db user.id ≡ some u)
        × (Password.verify app.node u.password_hash current w ≡ (ok true, w))
        × (new ≢ current)
        × ((v : State app) → Password.verify app.node h new v ≡ (ok true, v))
        × IsPasswordChange app user
            (record u { password_hash = h; updated_at = now })
            time
            w.db
            w'.db
  unfolding change_password
  change_password_lem user current new w w' e =
      elim (Result-cases (verify_current_password app user.id current w).0) [
        | inl (f, bad) ↦ ground arith
        | inr (u, verified) ↦
            let v : State app = (verify_current_password app user.id current w).1 in
            let (there, good) = verify_current_password-inv user.id current w v u (ground arith) in
            let same : v ≡ w =
              ap (λ (p : Result Bool × State app). p.1) (sym good)
              ∙ verify_keeps app u.password_hash current w in
            elim (Bool-cases (text_eq new current)) [
              | inl equal ↦ ground arith
              | inr differs ↦
                  let done : set_password app user u new v ≡ (ok tt, w') = ground arith in
                  let (h, time, now, verifies, change) =
                    set_password_lem user u new w w' there
                      (ap (set_password app user u new) (sym same) ∙ done) in
                  (
                    u,
                    h,
                    time,
                    now,
                    there,
                    good ∙ ap (λ (y : State app). (ok true, y)) same,
                    λ equal. cc (differs, (text_eq_iff new current).1 equal),
                    verifies,
                    change,
                  )
            ]
      ]
