-- ===== src/Users/Updates.antt =====
-- Updates of an account: the row that they change, and how they fail.
use baja_valle_service.Prelude.{
  ℕ, ◌+◌, ◌≡◌, ◌≢◌, refl, sym, ap, ◌∙◌, false, none, some, [], ◌∷◌, arith,
}
use baja_valle_service.Text.{Text}
use baja_valle_service.Prisma.{User, UserPatch, Value, no_change, apply_patch, is_null}
use baja_valle_service.Exec.{PrismaCode, Failure, Result, ok, err}
use baja_valle_service.Exec.Laws.{catch-err}
use baja_valle_service.Encryption.{encrypt}
use baja_valle_service.Encryption.Laws.{encrypt_total}
use baja_valle_service.App.{App, AppLaws, State}
use baja_valle_service.Users.Field
use baja_valle_service.Users.{
  encrypt_if_given, email_taken, email_hash, encrypt_email, normalize_email, rethrow, update_name,
  update_email_row, update_email,
}

-- What a call that changed the row of one user has done to the database.
pub record Writes (app : App) (i : ℕ) (u : User) (db db' : app.prisma.Db) : Type 0 where
  pub row : app.prisma.user db' i ≡ some u
  pub others : (j : ℕ) → i ≢ j → app.prisma.user db' j ≡ app.prisma.user db j
  pub sessions : (j : ℕ) → app.prisma.session db' j ≡ app.prisma.session db j

module _ (app : App) (laws : AppLaws app) where
  open laws use {prisma_laws}

  -- An update of a user that is there, with no new email and no null, writes the patched row.
  pub user_update_lem :
      (i : ℕ) (patch : UserPatch) (old : User) (db : app.prisma.Db)
      → app.prisma.user db i ≡ some old
      → patch.email_hash ≡ none
      → is_null patch.first_name_enc ≡ false
      → is_null patch.last_name_enc ≡ false
      → (now : ℕ) × (db' : app.prisma.Db) × (app.prisma.user_update i patch db
          ≡ (ok (apply_patch patch now old), db'))
        × Writes app i (apply_patch patch now old) db db'
  user_update_lem i patch old db e h f l =
      let (now, db', written) = prisma_laws.user_update_total i patch db old e h f l in
      let (old', there, row, users, sessions) =
        prisma_laws.user_update_ok i patch db db' (apply_patch patch now old) written in
      (
        now,
        db',
        written,
        record {
          row = users i ∙ ground arith;
          others = λ j n. users j ∙ ground arith;
          sessions = sessions;
        },
      )

  -- What `encrypt` answers with the ring of the application.
  pub seal_field :
      (plaintext context : Text) (w : State app)
      → (c : Text) × (encrypt app.node app.encryption_keys plaintext context w
          ≡ (ok c, record w { draws = w.draws + 1 }))
  seal_field plaintext context w = (
    _,
    encrypt_total app.node laws.node_laws app.encryption_keys laws.current_key plaintext context w
        laws.ring_current,
  )

  encrypt_if_given_lem :
      (v : Value) (field : Text) (w : State app)
      → (v' : Value) × (w' : State app) × (encrypt_if_given app v field w ≡ (ok v', w'))
        × (w'.db ≡ w.db)
        × (is_null v' ≡ is_null v)
  unfolding encrypt_if_given
  encrypt_if_given_lem Value.undefined field w = (Value.undefined, w, refl, refl, refl)
  encrypt_if_given_lem Value.null field w = (Value.null, w, refl, refl, refl)
  encrypt_if_given_lem (Value.text []) field w = (Value.text [], w, refl, refl, refl)
  encrypt_if_given_lem (Value.text (c ∷ s)) field w =
      let (sealed, e) = seal_field (c ∷ s) field w in
      (Value.text sealed, record w { draws = w.draws + 1 }, rw e, refl, refl)

  -- `names` with a null answers with Prisma's validation error, and writes nothing: the check of the
  -- controller and `IsOptional` let a null through.
  pub update_name_null :
      (i : ℕ) (last : Value) (w : State app)
      → (w' : State app) × (update_name app i
            (record { first_name = Value.null; last_name = last })
            w
          ≡ (err (Failure.prisma PrismaCode.validation), w'))
        × (w'.db ≡ w.db)
  unfolding update_name encrypt_if_given
  update_name_null i last w =
      let (v', w', e, same, _) = encrypt_if_given_lem last Field.last_name w in
      let patch : UserPatch = record no_change {
        first_name_enc = Value.null;
        last_name_enc = v';
      } in
      (
        w',
        rw e (
            ap (λ (p : Result User × app.prisma.Db). (p.0, record w' { db = p.1 }))
              (prisma_laws.user_update_null i patch w'.db refl)),
        same,
      )

  -- The email of an account cannot become one that another account has: the answer is 409 and
  -- nothing is written.
  pub update_email_taken :
      (i j : ℕ) (email : Text) (u v : User) (w : State app)
      → app.prisma.user w.db i ≡ some u
      → app.prisma.user w.db j ≡ some v
      → v.email_hash ≡ email_hash app email
      → i ≢ j
      → (w' : State app) × (update_email app i email w ≡ (err email_taken, w')) × (w'.db ≡ w.db)
  unfolding update_email update_email_row rethrow encrypt_email
  update_email_taken i j email u v w eu ev same n =
      let (sealed, e) = seal_field (normalize_email app.node email) Field.email w in
      let w' : State app = record w { draws = w.draws + 1 } in
      let patch : UserPatch = record no_change {
        email_hash = some (email_hash app email);
        email_enc = some sealed;
      } in
      (
        w',
        catch-err (update_email_row app i email) rethrow {x = Failure.prisma PrismaCode.p2002} (
            rw e (
              ap (λ (p : Result User × app.prisma.Db). (p.0, record w' { db = p.1 }))
                (prisma_laws.user_update_taken i j patch w.db u v eu ev (ap some (sym same)) n
                  refl))),
        refl,
      )

-- Two writes of one row.
pub Writes-trans :
    (app : App) (i : ℕ) (u v : User) (db db' db'' : app.prisma.Db)
    → Writes app i u db db'
    → Writes app i v db' db''
    → Writes app i v db db''
Writes-trans app i u v db db' db'' a b = record {
  row = b.row;
  others = λ j n. b.others j n ∙ a.others j n;
  sessions = λ j. b.sessions j ∙ a.sessions j;
}
