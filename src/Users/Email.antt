-- ===== src/Users/Email.antt =====
-- A change of the email that returned.
use baja_valle_service.Prelude.{
  ℕ, ◌+◌, ◌≡◌, refl, sym, ap, ◌∙◌, some, inl, inr, arith, ==_refl, ==_iff,
}
use baja_valle_service.Text.{Text}
use baja_valle_service.Prisma.{User, UserPatch, no_change}
use baja_valle_service.Exec.{ok, Result-cases}
use baja_valle_service.Exec.Laws.{catch-eq-ok}
use baja_valle_service.Encryption.{decrypt}
use baja_valle_service.Encryption.Laws.{decrypt-encrypt}
use baja_valle_service.App.{App, AppLaws, State}
use baja_valle_service.Users.Field
use baja_valle_service.Users.Updates.{Writes, seal_field}
use baja_valle_service.Users.Accounts.{find_by_email-eq}
use baja_valle_service.Users.{
  UserProfile, email_hash, encrypt_email, normalize_email, find_by_email, rethrow, to_profile,
  update_email_row, update_email,
}

module _ (app : App) (laws : AppLaws app) where
  open laws use {prisma_laws}

  -- The row behind the change, and what has become of the others.
  pub record IsEmailChange (i : ℕ) (email : Text) (u u' : User) (w w' : State app) : Type 0 where
    pub before : app.prisma.user w.db i ≡ some u
    pub writes : Writes app i u' w.db w'.db
    pub row : u' ≡ record u {
      email_hash = u'.email_hash;
      email_enc = u'.email_enc;
      updated_at = u'.updated_at;
    }
    pub found : find_by_email app email w' ≡ (ok (some u'), w')
    pub content :
        decrypt app.node app.encryption_keys u'.email_enc Field.email
        ≡ ok (normalize_email app.node email)

  pub update_email-IsEmailChange :
      (i : ℕ) (email : Text) (w w' : State app) (u' : User)
      → laws.node_laws.IsText (normalize_email app.node email)
      → update_email app i email w ≡ (ok u', w')
      → (u : User) × IsEmailChange i email u u' w w'
  unfolding update_email update_email_row encrypt_email
  update_email-IsEmailChange i email w w' u' text e =
      let row = catch-eq-ok rethrow w' u' (λ x t. cc) (update_email_row app i email) w e in
      let plain = normalize_email app.node email in
      let (c, sealed) = seal_field app laws plain Field.email w in
      let (back, _) =
        decrypt-encrypt app.node laws.node_laws app.encryption_keys plain Field.email c w
          (record w { draws = w.draws + 1 }) laws.version_positive text sealed in
      let patch : UserPatch = record no_change {
        email_hash = some (email_hash app email);
        email_enc = some c;
      } in
      elim (Result-cases (app.prisma.user_update i patch w.db).0) [
        | inl (x, bad) ↦ ground arith
        | inr (v, done) ↦
            let written : app.prisma.user_update i patch w.db ≡ (ok u', w'.db) = ground arith in
            let (old, there, new, users, sessions) =
              prisma_laws.user_update_ok i patch w.db w'.db u' written in
            let here = users i ∙ rw (==_refl i) refl in
            (
              old,
              record {
                before = there;
                writes = record {
                  row = here;
                  others = λ j n. users j ∙ ground (arith, ==_iff i j);
                  sessions = sessions;
                };
                row =
                    new
                    ∙ sym (
                        ap
                          (λ (x : User). record old {
                            email_hash = x.email_hash;
                            email_enc = x.email_enc;
                            updated_at = u'.updated_at;
                          })
                          new);
                found =
                    find_by_email-eq app laws email w' i u' here
                      (ap (λ (x : User). x.email_hash) new);
                content =
                    ap (λ (x : User). decrypt app.node app.encryption_keys x.email_enc Field.email)
                      new
                    ∙ back;
              },
            )
      ]

  -- The email of a profile is what its column decrypts to.
  pub email-to_profile :
      (u : User) (email : Text) (p : UserProfile)
      → decrypt app.node app.encryption_keys u.email_enc Field.email ≡ ok email
      → to_profile app u ≡ ok p
      → p.email ≡ email
  unfolding to_profile
  email-to_profile u email p e known =
      elim (Result-cases (decrypt app.node app.encryption_keys u.first_name_enc Field.first_name)) [
        | inl (x, bad) ↦ ground arith
        | inr (first, good) ↦
            elim (Result-cases
              (decrypt app.node app.encryption_keys u.last_name_enc Field.last_name)) [
                | inl (x, bad) ↦ ground arith
                | inr (last, fine) ↦ ground arith
              ]
      ]
