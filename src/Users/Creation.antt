-- ===== src/Users/Creation.antt =====
-- Creating accounts: when `create` of src/users/users.service.ts is refused, and what it writes.
use baja_valle_service.Prelude.{◌==◌, if◌then◌else◌, ◌+◌, ℕ, ◌≡◌, ◌≢◌, refl, ap, ◌∙◌, none, some}
use baja_valle_service.Text.{Text}
use baja_valle_service.Prisma.{Role, User, UserData, get_or}
use baja_valle_service.Exec.{Result, ok, err}
use baja_valle_service.Exec.Laws.{catch-ok, catch-err}
use baja_valle_service.World.{call}
use baja_valle_service.Encryption.{format, seal, current_version, iv_bytes}
use baja_valle_service.Encryption.Laws.{encrypt_total}
use baja_valle_service.App.{App, AppLaws, State}
use baja_valle_service.Users.Field
use baja_valle_service.Users.{
  encrypt_email, rethrow, NewUser, email_taken, normalize_email, email_hash, create_row, create,
}

module _ (app : App) (laws : AppLaws app) where
  open laws use {prisma_laws}

  -- The world after the three encryptions of `create`, and the data that it writes there.
  abbrev sealed_world : State app → State app
  sealed_world w = record w { draws = w.draws + 1 + 1 + 1 }

  abbrev sealed_text : Text → Text → ℕ → Text
  sealed_text plaintext context draw = format app.node (
      seal app.node (current_version app.encryption_keys) laws.current_key
        (app.node.random_bytes draw iv_bytes) plaintext context)

  abbrev sealed_row : NewUser → State app → UserData
  sealed_row new w = record {
    email_hash = email_hash app new.email;
    email_enc = sealed_text (normalize_email app.node new.email) Field.email w.draws;
    first_name_enc = sealed_text new.first_name Field.first_name (w.draws + 1);
    last_name_enc = sealed_text new.last_name Field.last_name (w.draws + 1 + 1);
    password_hash = new.password_hash;
    role = get_or new.role Role.client;
  }

  create_row-eq :
      (new : NewUser) (w : State app)
      → create_row app new w ≡ call (app.prisma.user_create (sealed_row new w)) (sealed_world w)
  unfolding create_row encrypt_email
  create_row-eq new w =
      let total = encrypt_total app.node laws.node_laws app.encryption_keys laws.current_key in
      rw (
        total (normalize_email app.node new.email) Field.email w laws.ring_current,
        total new.first_name Field.first_name (record w { draws = w.draws + 1 }) laws.ring_current,
        total new.last_name Field.last_name (record w { draws = w.draws + 1 + 1 })
            laws.ring_current,
      )

  -- An email is taken if some account has the same normalized email: `create` answers 409 and
  -- writes nothing.
  pub create_taken :
      (new : NewUser) (w : State app) (i : ℕ) (v : User)
      → app.prisma.user w.db i ≡ some v
      → v.email_hash ≡ email_hash app new.email
      → (w' : State app) × (create app new w ≡ (err email_taken, w')) × (w'.db ≡ w.db)
  unfolding create rethrow
  create_taken new w i v found same =
      let w3 : State app = sealed_world w in
      (
        w3,
        catch-err (create_row app new) rethrow (
            create_row-eq new w
            ∙ ap (λ (p : Result User × app.prisma.Db). (p.0, record w3 { db = p.1 }))
                (prisma_laws.user_create_taken (sealed_row new w) w.db i v found same)),
        refl,
      )

  -- The row that `create` has written.
  pub record IsNew (new : NewUser) (w w' : State app) (u : User) : Type 0 where
    pub hash : u.email_hash ≡ email_hash app new.email
    pub password : u.password_hash ≡ new.password_hash
    pub fresh : app.prisma.user w.db u.id ≡ none
    pub users :
        (j : ℕ) → app.prisma.user w'.db j ≡ (if u.id == j then some u else app.prisma.user w.db j)
    pub sessions : (j : ℕ) → app.prisma.session w'.db j ≡ app.prisma.session w.db j

  pub create_lem :
      (new : NewUser) (w : State app)
      → ((i : ℕ) (v : User)
          → app.prisma.user w.db i ≡ some v
          → v.email_hash ≢ email_hash app new.email)
      → (u : User) × (w' : State app) × (create app new w ≡ (ok u, w')) × IsNew new w w' u
  unfolding create
  create_lem new w free =
      let row_data = sealed_row new w in
      let (u, db', written) = prisma_laws.user_create_free row_data w.db free in
      let (row, fresh, users, sessions) = prisma_laws.user_create_ok row_data w.db db' u written in
      (
        u,
        record (sealed_world w) { db = db' },
        catch-ok (create_row app new) rethrow (
            create_row-eq new w
            ∙ ap (λ (p : Result User × app.prisma.Db). (p.0, record (sealed_world w) { db = p.1 }))
                written),
        record {
          hash = ap (λ (v : User). v.email_hash) row;
          password = ap (λ (v : User). v.password_hash) row;
          fresh = fresh;
          users = users;
          sessions = sessions;
        },
      )

  -- With an email that no account has, `create` returns.
  pub create_total :
      (new : NewUser) (w : State app)
      → ((i : ℕ) (v : User)
          → app.prisma.user w.db i ≡ some v
          → v.email_hash ≢ email_hash app new.email)
      → (u : User) × (w' : State app) × (create app new w ≡ (ok u, w'))
  create_total new w free = let (u, w', created, is_new) = create_lem new w free in (u, w', created)
