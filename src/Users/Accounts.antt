-- ===== src/Users/Accounts.antt =====
-- Creating accounts, and finding them by their email.
use baja_valle_service.Prelude.{
  ==_refl, ℕ, ◌≡◌, ◌≢◌, sym, ap, ◌∙◌, Bool, true, Option, none, some, inl, inr, arith, Option-cases,
}
use baja_valle_service.Text.{Text, text_eq}
use baja_valle_service.Text.Laws.{text_eq_iff}
use baja_valle_service.Prisma.{Role, User, get_or}
use baja_valle_service.Exec.{ok, Result-cases}
use baja_valle_service.Exec.Laws.{catch-eq-ok}
use baja_valle_service.Encryption.{encrypt, decrypt, blind_index}
use baja_valle_service.Encryption.Laws.{decrypt-encrypt}
use baja_valle_service.App.{App, AppLaws, Action, State}
use baja_valle_service.Users.Field
use baja_valle_service.Users.{
  encrypt_email, rethrow, NewUser, normalize_email, email_hash, find_by_email, create_row, create,
  to_profile,
}

module _ (app : App) (laws : AppLaws app) where
  open laws use {prisma_laws}

  -- The row with the blind index of an email is the one that a search by the email finds.
  pub find_by_email-eq :
      (email : Text) (w : State app) (i : ℕ) (u : User)
      → app.prisma.user w.db i ≡ some u
      → u.email_hash ≡ email_hash app email
      → find_by_email app email w ≡ (ok (some u), w)
  unfolding find_by_email
  find_by_email-eq email w i u e h =
      let test : User → Bool = λ v. text_eq v.email_hash (email_hash app email) in
      let hit : test u ≡ true = (text_eq_iff _ _).1 h in
      elim (Option-cases (app.prisma.user_find test w.db)) [
        | inl missed ↦ cc (hit, prisma_laws.user_find_none test w.db missed i u e)
        | inr (v, found) ↦
            let (there, same) = prisma_laws.user_find_some test w.db v found in
            let same_hash : u.email_hash ≡ v.email_hash = h ∙ sym ((text_eq_iff _ _).0 same) in
            rw found (
              ap (λ (o : Option User). (ok o, w))
                (sym there
                  ∙ ap (app.prisma.user w.db)
                      (sym (prisma_laws.email_unique w.db i v.id u v e there same_hash))
                  ∙ e))
      ]

  -- What `create` has done when it returned: three fields were encrypted, and the row was written.
  pub create-inv :
      (new : NewUser) (w w' : State app) (u : User)
      → create app new w ≡ (ok u, w')
      → (email_enc first_enc last_enc : Text) × (w1 w2 w3 : State app) × (encrypt_email app
            new.email w
          ≡ (ok email_enc, w1))
        × (encrypt app.node app.encryption_keys new.first_name Field.first_name w1
            ≡ (ok first_enc, w2))
        × (encrypt app.node app.encryption_keys new.last_name Field.last_name w2
            ≡ (ok last_enc, w3))
        × (app.prisma.user_create
              (record {
                email_hash = email_hash app new.email;
                email_enc = email_enc;
                first_name_enc = first_enc;
                last_name_enc = last_enc;
                password_hash = new.password_hash;
                role = get_or new.role Role.client;
              })
              w3.db
            ≡ (ok u, w'.db))
  unfolding create create_row
  create-inv new w w' u e =
      let row = catch-eq-ok rethrow w' u (λ x t. cc) (create_row app new) w e in
      let first : Action app Text =
        encrypt app.node app.encryption_keys new.first_name Field.first_name in
      let last : Action app Text =
        encrypt app.node app.encryption_keys new.last_name Field.last_name in
      let w1 : State app = (encrypt_email app new.email w).1 in
      let w2 : State app = (first w1).1 in
      elim (Result-cases (encrypt_email app new.email w).0) [
        | inl (x, bad) ↦ ground arith
        | inr (email_enc, e1) ↦ elim (Result-cases (first w1).0) [
          | inl (x, bad) ↦ ground arith
          | inr (first_enc, e2) ↦ elim (Result-cases (last w2).0) [
            | inl (x, bad) ↦ ground arith
            | inr (last_enc, e3) ↦ (
              email_enc,
              first_enc,
              last_enc,
              w1,
              w2,
              (last w2).1,
              ground arith,
              ground arith,
              ground arith,
              ground arith,
            )
          ]
        ]
      ]

  -- An account that `create` returned is the one that a search finds for every spelling of its email
  -- that normalizes alike.
  pub find_by_email-create :
      (new : NewUser) (spelling : Text) (w w' : State app) (u : User)
      → create app new w ≡ (ok u, w')
      → normalize_email app.node spelling ≡ normalize_email app.node new.email
      → find_by_email app spelling w' ≡ (ok (some u), w')
  unfolding email_hash
  find_by_email-create new spelling w w' u e same =
      let (email_enc, first_enc, last_enc, w1, w2, w3, e1, e2, e3, written) =
        create-inv new w w' u e in
      let (row, fresh, users, sessions) = prisma_laws.user_create_ok _ w3.db w'.db u written in
      find_by_email-eq spelling w' u.id u (users u.id ∙ rw (==_refl u.id)) (
        ap (λ (v : User). v.email_hash) row
        ∙ ap (λ n. blind_index app.node app.blind_index_key n Field.email) (sym same))

  pub to_profile-eq :
      (u : User) (role : Role) (email first last : Text)
      → decrypt app.node app.encryption_keys u.email_enc Field.email ≡ ok email
      → decrypt app.node app.encryption_keys u.first_name_enc Field.first_name ≡ ok first
      → decrypt app.node app.encryption_keys u.last_name_enc Field.last_name ≡ ok last
      → u.role ≡ role
      → to_profile app u
        ≡ ok (record {
          id = u.id;
          email = email;
          first_name = first;
          last_name = last;
          role = role;
          created_at = u.created_at;
        })
  unfolding to_profile
  to_profile-eq u role email first last e f l r = ground arith

  -- If UTF-8 carries the normalized email and both names, the profile of an account that `create`
  -- returned has the normalized email, the names as they were given, and the role CLIENT where none was
  -- given.
  pub to_profile-create :
      (new : NewUser) (w w' : State app) (u : User)
      → laws.node_laws.IsText (normalize_email app.node new.email)
      → laws.node_laws.IsText new.first_name
      → laws.node_laws.IsText new.last_name
      → create app new w ≡ (ok u, w')
      → to_profile app u
        ≡ ok (record {
          id = u.id;
          email = normalize_email app.node new.email;
          first_name = new.first_name;
          last_name = new.last_name;
          role = get_or new.role Role.client;
          created_at = u.created_at;
        })
  unfolding encrypt_email
  to_profile-create new w w' u te tf tl e =
      let (email_enc, first_enc, last_enc, w1, w2, w3, e1, e2, e3, written) =
        create-inv new w w' u e in
      let (row, fresh, users, sessions) = prisma_laws.user_create_ok _ w3.db w'.db u written in
      let keys = app.encryption_keys in
      let pos = laws.version_positive in
      let read = decrypt-encrypt app.node laws.node_laws keys in
      to_profile-eq u (get_or new.role Role.client) (normalize_email app.node new.email)
        new.first_name new.last_name
        (cc (ap (λ (r : User). r.email_enc) row, (read _ _ email_enc w w1 pos te e1).0))
        (cc (ap (λ (r : User). r.first_name_enc) row, (read _ _ first_enc w1 w2 pos tf e2).0))
        (cc (ap (λ (r : User). r.last_name_enc) row, (read _ _ last_enc w2 w3 pos tl e3).0))
        (ap (λ (r : User). r.role) row)

  -- With no such row the search finds nobody.
  pub find_by_email-none :
      (email : Text) (w : State app)
      → ((i : ℕ) (u : User) → app.prisma.user w.db i ≡ some u → u.email_hash ≢ email_hash app email)
      → find_by_email app email w ≡ (ok none, w)
  unfolding find_by_email
  find_by_email-none email w unknown =
      let test : User → Bool = λ v. text_eq v.email_hash (email_hash app email) in
      elim (Option-cases (app.prisma.user_find test w.db)) [
        | inl missed ↦ rw missed
        | inr (v, found) ↦
            let (there, same) = prisma_laws.user_find_some test w.db v found in
            absurd (unknown v.id v there ((text_eq_iff _ _).0 same))
      ]
