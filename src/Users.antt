-- ===== src/Users.antt =====
-- src/users/users.service.ts
pub mod Field
pub mod Accounts
pub mod Creation
pub mod Updates
pub mod Email
pub mod Tests
use baja_valle_service.Prelude.{ℕ, Bool, true, false, Option, none, some, [], ◌∷◌, if◌then◌else◌}
use baja_valle_service.Text.{Text, codes, text_eq, trim}
use baja_valle_service.Node.{Node}
use baja_valle_service.Prisma.{
  Role, User, UserData, UserPatch, Value, Change, no_change, get_or, Prisma,
}
use baja_valle_service.Exec.{
  HttpException, PrismaCode, Failure, Result, ok, err, Exec, ◌>>=◌, ◌>>◌, pure, throw, catch,
}
use baja_valle_service.World.{World, query, call}
use baja_valle_service.Encryption.{encrypt, decrypt, blind_index}
use baja_valle_service.App.{App, Action}

pub record UserProfile : Type 0 where
  pub id : ℕ
  pub email : Text
  pub first_name : Text
  pub last_name : Text
  pub role : Role
  pub created_at : ℕ

-- The argument of `create`.
pub record NewUser : Type 0 where
  pub email : Text
  pub first_name : Text
  pub last_name : Text
  pub password_hash : Text
  pub role : Option Role

-- The argument of `updateName`.
pub record Names : Type 0 where
  pub first_name : Value
  pub last_name : Value

unfoldable pub normalize_email : Node → Text → Text
normalize_email node email = node.to_lower_case (trim email)

unfoldable pub is_unique_violation : Failure → Bool
is_unique_violation (Failure.prisma PrismaCode.p2002) = true
is_unique_violation _ = false

abbrev pub email_taken : Failure
email_taken = Failure.http (HttpException.conflict (codes "Ya existe una cuenta con ese correo"))

-- The `catch` of `create` and of `updateEmail`.
rethrow : {S A : Type 0} → Failure → Exec S A
unfolding is_unique_violation
rethrow e = throw (if is_unique_violation e then email_taken else e)

module _ (app : App) where
  unfoldable pub email_hash : Text → Text
  email_hash email =
      blind_index app.node app.blind_index_key (normalize_email app.node email) Field.email

  unfoldable pub find_by_email : Text → Action app (Option User)
  find_by_email email = query (app.prisma.user_find (λ u. text_eq u.email_hash (email_hash email)))

  unfoldable pub find_by_id : ℕ → Action app (Option User)
  find_by_id id = query (λ db. app.prisma.user db id)

  -- this.encryption.encrypt
  abbrev encrypt_field : Text → Text → Action app Text
  encrypt_field = encrypt app.node app.encryption_keys

  -- The `emailEnc` of `encryptEmail`; its `emailHash` is `email_hash email`.
  unfoldable pub encrypt_email : Text → Action app Text
  encrypt_email email = encrypt_field (normalize_email app.node email) Field.email

  create_row : NewUser → Action app User
  unfolding encrypt_email
  create_row new = do
    email_enc ← encrypt_email new.email
    first_name_enc ← encrypt_field new.first_name Field.first_name
    last_name_enc ← encrypt_field new.last_name Field.last_name
    call (
        app.prisma.user_create (record {
          email_hash = email_hash new.email;
          email_enc = email_enc;
          first_name_enc = first_name_enc;
          last_name_enc = last_name_enc;
          password_hash = new.password_hash;
          role = get_or new.role Role.client;
        }))

  unfoldable pub create : NewUser → Action app User
  unfolding create_row rethrow
  create new = catch (create_row new) rethrow

  abbrev decrypt_field : Text → Text → Result Text
  decrypt_field = decrypt app.node app.encryption_keys

  unfoldable pub to_profile : User → Result UserProfile
  to_profile user = elim (decrypt_field user.email_enc Field.email) [
    | err e ↦ err e
    | ok email ↦ elim (decrypt_field user.first_name_enc Field.first_name) [
      | err e ↦ err e
      | ok first_name ↦ elim (decrypt_field user.last_name_enc Field.last_name) [
        | err e ↦ err e
        | ok last_name ↦ ok (record {
          id = user.id;
          email = email;
          first_name = first_name;
          last_name = last_name;
          role = user.role;
          created_at = user.created_at;
        })
      ]
    ]
  ]

  -- `name && this.encryption.encrypt(name, field)`: what is falsy is passed on as it is.
  encrypt_if_given : Value → Text → Action app Value
  encrypt_if_given Value.undefined field = pure Value.undefined
  encrypt_if_given Value.null field = pure Value.null
  encrypt_if_given (Value.text []) field = pure (Value.text [])
  encrypt_if_given (Value.text (c ∷ s)) field = do
    sealed ← encrypt_field (c ∷ s) field
    pure (Value.text sealed)

  unfoldable pub update_name : ℕ → Names → Action app User
  unfolding encrypt_if_given
  update_name id names = do
    first ← encrypt_if_given names.first_name Field.first_name
    last ← encrypt_if_given names.last_name Field.last_name
    call (
        app.prisma.user_update id
          (record no_change { first_name_enc = first; last_name_enc = last }))

  update_email_row : ℕ → Text → Action app User
  unfolding encrypt_email
  update_email_row id email = do
    email_enc ← encrypt_email email
    call (
        app.prisma.user_update id
          (record no_change { email_hash = some (email_hash email); email_enc = some email_enc }))

  unfoldable pub update_email : ℕ → Text → Action app User
  unfolding update_email_row rethrow
  update_email id email = catch (update_email_row id email) rethrow

  unfoldable pub update_password_hash : ℕ → Text → Action app User
  update_password_hash id h =
      call (app.prisma.user_update id (record no_change { password_hash = some h }))

  unfoldable pub update_role : ℕ → Role → Action app User
  update_role id role = call (app.prisma.user_update id (record no_change { role = some role }))

  unfoldable pub record_failed_login : ℕ → Action app User
  record_failed_login id = call (
      app.prisma.user_update id
        (record no_change { failed_login_attempts = some (Change.increment 1) }))

  unfoldable pub lock : ℕ → ℕ → Action app User
  lock id until = call (
      app.prisma.user_update id (record no_change {
        failed_login_attempts = some (Change.set 0);
        locked_until = some (some until);
      }))

  unfoldable pub clear_failed_logins : ℕ → Action app User
  clear_failed_logins id = call (
      app.prisma.user_update id (record no_change {
        failed_login_attempts = some (Change.set 0);
        locked_until = some none;
      }))

  unfoldable pub delete : ℕ → Action app (Unit {0})
  delete id = do call (app.prisma.user_delete id); pure tt
