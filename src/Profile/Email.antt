-- ===== src/Profile/Email.antt =====
-- The change of the email by its owner.
use baja_valle_service.Prelude.{Bool, some_inj, ◌≡◌, ap, sym, ◌∙◌, true, inl, inr, arith}
use mathlib.Core.Path.{subst}
use baja_valle_service.Text.{Text}
use baja_valle_service.Prisma.{User}
use baja_valle_service.Exec.{Result, ok, Result-cases}
use baja_valle_service.Password
use baja_valle_service.App.{App, AppLaws, State}
use baja_valle_service.Users
use baja_valle_service.Users.{UserProfile, normalize_email}
use baja_valle_service.Users.Email.{IsEmailChange, update_email-IsEmailChange, email-to_profile}
use baja_valle_service.Auth.{AuthUser, verify_current_password}
use baja_valle_service.Profile.{change_email}
use baja_valle_service.Profile.Laws.{verify_current_password-inv, verify_keeps}

module _ (app : App) (laws : AppLaws app) where
  -- A request to change the email that returns has verified the current password; the account is then
  -- found by the new email and has it in its profile, and nothing else of the row but the date of its
  -- update, no other row and no session has changed. It is supposed that UTF-8 carries the email.
  pub change_email_lem :
      (user : AuthUser) (password email : Text) (w w' : State app) (p : UserProfile)
      → laws.node_laws.IsText (normalize_email app.node email)
      → change_email app user password email w ≡ (ok p, w')
      → (u u' : User) × (v : State app) × (Password.verify app.node u.password_hash password w
          ≡ (ok true, v))
        × IsEmailChange app laws user.id email u u' w w'
        × (p.email ≡ normalize_email app.node email)
  unfolding change_email
  change_email_lem user password email w w' p text e =
      elim (Result-cases (verify_current_password app user.id password w).0) [
        | inl (f, bad) ↦ ground arith
        | inr (u, verified) ↦
            let v : State app = (verify_current_password app user.id password w).1 in
            let (there, good) =
              verify_current_password-inv app laws user.id password w v u (ground arith) in
            let same : v ≡ w =
              ap (λ (q : Result Bool × State app). q.1) (sym good)
              ∙ verify_keeps app u.password_hash password w in
            elim (Result-cases (Users.update_email app user.id email v).0) [
              | inl (f, bad) ↦ ground arith
              | inr (u', changed) ↦
                  let done : Users.update_email app user.id email v ≡ (ok u', w') = ground arith in
                  let here = ap (Users.update_email app user.id email) (sym same) ∙ done in
                  let (old, change) =
                    update_email-IsEmailChange app laws user.id email w w' u' text here in
                  let known : Users.to_profile app u' ≡ ok p = ground arith in
                  (
                    u,
                    u',
                    v,
                    good,
                    subst (λ x. IsEmailChange app laws user.id email x u' w w')
                        (some_inj (sym change.before ∙ there)) change,
                    email-to_profile app laws u' (normalize_email app.node email) p change.content
                        known,
                  )
            ]
      ]
