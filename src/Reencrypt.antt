-- ===== src/Reencrypt.antt =====
-- src/scripts/reencrypt.ts: every user's fields are moved under the current key, page by page. The
-- start and the end of the application context, and what the script prints, are left out.
pub mod Fields
pub mod Users
pub mod Rows
pub mod Laws
pub mod Sample
pub mod Tests
use baja_valle_service.Prelude.{
  ℕ, zero, suc, ◌+◌, ◌≤◌, ◌<◌, ◌≡◌, Bool, ◌||◌, Option, none, some, List, [], ◌∷◌, if◌then◌else◌,
  is_some,
}
use baja_valle_service.Text.{Text}
use baja_valle_service.Prisma.{User, Value, UserPatch, no_change}
use baja_valle_service.Exec.{Result, ok, err, Exec, ◌>>=◌, ◌>>◌, pure, lift}
use baja_valle_service.World.{World, query, call}
use baja_valle_service.Encryption.{needs_reencryption, reencrypt}
use baja_valle_service.App.{App, Action}
use baja_valle_service.Users.Field

abbrev pub batch : ℕ
batch = 100

-- user.findMany ordered by id, from behind a cursor if there is one, and at most so many.
pub record Pages (Db : Type 0) : Type 0 where
  pub users_page : Option ℕ → ℕ → Db → List User

-- The least id behind a cursor.
abbrev pub behind : Option ℕ → ℕ
behind none = 0
behind (some cursor) = cursor + 1

-- Rows in the order of their ids, from an id on and without a gap.
abbrev pub IsPage : (ℕ → Option User) → ℕ → List User → Type 0
IsPage row k [] = Unit
IsPage row k (u ∷ users) =
    (k ≤ u.id)
    × (row u.id ≡ some u)
    × ((j : ℕ) → k ≤ j → j < u.id → row j ≡ none)
    × IsPage row (u.id + 1) users

pub record PagesLaws (app : App) (pages : Pages app.prisma.Db) : Type 0 where
  pub page :
      (cursor : Option ℕ) (size : ℕ) (db : app.prisma.Db)
      → IsPage (app.prisma.user db) (behind cursor) (pages.users_page cursor size db)
  pub last :
      (cursor : Option ℕ) (size : ℕ) (db : app.prisma.Db)
      → 1 ≤ size
      → pages.users_page cursor size db ≡ []
      → (j : ℕ) → behind cursor ≤ j
      → app.prisma.user db j ≡ none

-- A field of `data`: undefined unless it was set.
abbrev pub field_value : Option Text → Value
field_value none = Value.undefined
field_value (some c) = Value.text c

abbrev pub patch_of : Option Text → Option Text → Option Text → UserPatch
patch_of email first last = record no_change {
  email_enc = email;
  first_name_enc = field_value first;
  last_name_enc = field_value last;
}

-- users[users.length - 1].id, of the first user and the others
unfoldable pub last_id : User → List User → ℕ
last_id u [] = u.id
last_id u (v ∷ users) = last_id v users

module _ (app : App) where
  -- The body of the loop over USER_FIELDS.
  unfoldable pub reencrypt_field : Text → Text → Action app (Option Text)
  reencrypt_field value context = do
    needed ← lift (needs_reencryption app.node app.encryption_keys value)
    if needed
        then (do c ← reencrypt app.node app.encryption_keys value context; pure (some c))
        else pure none

  -- The test of `data`, and the update, with `updated`.
  unfoldable pub write_fields : User → Option Text → Option Text → Option Text → ℕ → Action app ℕ
  write_fields user email first last updated =
      if is_some email || is_some first || is_some last
      then (do
        call (app.prisma.user_update user.id (patch_of email first last))
        pure (updated + 1))
      else pure updated

  -- The body of the loop over a page.
  unfoldable pub reencrypt_user : User → ℕ → Action app ℕ
  unfolding write_fields
  reencrypt_user user updated = do
    email ← reencrypt_field user.email_enc Field.email
    first ← reencrypt_field user.first_name_enc Field.first_name
    last ← reencrypt_field user.last_name_enc Field.last_name
    write_fields user email first last updated

  unfoldable pub reencrypt_users : List User → ℕ → Action app ℕ
  reencrypt_users [] updated = pure updated
  reencrypt_users (user ∷ users) updated = do
    updated ← reencrypt_user user updated
    reencrypt_users users updated

  -- What follows a page: the end, or its users and the rest of the loop behind them.
  unfoldable pub main_page :
      (Option ℕ → ℕ → Action app (Option ℕ)) → List User → ℕ → Action app (Option ℕ)
  main_page rest [] updated = pure (some updated)
  main_page rest (user ∷ users) updated = do
    updated ← reencrypt_users (user ∷ users) updated
    rest (some (last_id user users)) updated

  -- The loop, on fuel, with its `cursor` and `updated`; `none` is the end of the fuel.
  unfoldable pub main_loop : Pages app.prisma.Db → ℕ → Option ℕ → ℕ → Action app (Option ℕ)
  main_loop pages zero cursor updated = pure none
  main_loop pages (suc fuel) cursor updated = do
    users ← query (pages.users_page cursor batch)
    main_page (main_loop pages fuel) users updated
