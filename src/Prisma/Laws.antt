-- ===== src/Prisma/Laws.antt =====
-- What the services rely on of the generated client and PostgreSQL: primary and unique keys, the
-- foreign key from a session to its user with its cascade, atomic calls that touch no other row, and
-- that a call fails only for a reason of its data.
use baja_valle_service.Prelude.{
  ℕ, ◌≡◌, ◌≢◌, Bool, true, false, ◌||◌, Option, none, some, ◌==◌, if◌then◌else◌,
}
use baja_valle_service.Exec.{Failure, prisma, p2002, p2025, validation, ok, err}
use baja_valle_service.Prisma.{
  User, Session, UserData, UserPatch, SessionData, new_user, new_session, apply_patch, is_null,
  Prisma,
}

-- A row after session.updateMany with `revokedAt`.
abbrev pub revoke_if : (Session → Bool) → ℕ → Option Session → Option Session
revoke_if w t none = none
revoke_if w t (some s) = if w s then some (record s { revoked_at = some t }) else some s

abbrev pub count_if : (Session → Bool) → Option Session → ℕ
count_if w none = 0
count_if w (some s) = if w s then 1 else 0

-- A session after the deletion of a user.
abbrev pub unless_owned : ℕ → Option Session → Option Session
unless_owned id none = none
unless_owned id (some s) = if s.user_id == id then none else some s

pub record PrismaLaws (p : Prisma) : Type 0 where
  pub user_id : (db : p.Db) (i : ℕ) (u : User) → p.user db i ≡ some u → u.id ≡ i
  pub session_id : (db : p.Db) (i : ℕ) (s : Session) → p.session db i ≡ some s → s.id ≡ i
  pub email_unique :
      (db : p.Db) (i j : ℕ) (u v : User)
      → p.user db i ≡ some u
      → p.user db j ≡ some v
      → u.email_hash ≡ v.email_hash
      → i ≡ j
  pub token_unique :
      (db : p.Db) (i j : ℕ) (s t : Session)
      → p.session db i ≡ some s
      → p.session db j ≡ some t
      → s.token_hash ≡ t.token_hash
      → i ≡ j
  pub user_find_some :
      (w : User → Bool) (db : p.Db) (u : User)
      → p.user_find w db ≡ some u
      → (p.user db u.id ≡ some u) × (w u ≡ true)
  pub user_find_none :
      (w : User → Bool) (db : p.Db)
      → p.user_find w db ≡ none
      → (i : ℕ) (u : User) → p.user db i ≡ some u
      → w u ≡ false
  pub session_find_some :
      (w : Session → Bool) (db : p.Db) (s : Session) (u : User)
      → p.session_find w db ≡ some (s, u)
      → (p.session db s.id ≡ some s) × (w s ≡ true) × (p.user db s.user_id ≡ some u)
  pub session_find_none :
      (w : Session → Bool) (db : p.Db)
      → p.session_find w db ≡ none
      → (i : ℕ) (s : Session) → p.session db i ≡ some s
      → w s ≡ false
  pub user_create_ok :
      (d : UserData) (db db' : p.Db) (u : User)
      → p.user_create d db ≡ (ok u, db')
      → (u ≡ new_user d u.id u.created_at u.updated_at)
        × (p.user db u.id ≡ none)
        × ((j : ℕ) → p.user db' j ≡ (if u.id == j then some u else p.user db j))
        × ((j : ℕ) → p.session db' j ≡ p.session db j)
  pub user_create_err :
      (d : UserData) (db db' : p.Db) (e : Failure) → p.user_create d db ≡ (err e, db') → db' ≡ db
  pub user_create_taken :
      (d : UserData) (db : p.Db) (i : ℕ) (u : User)
      → p.user db i ≡ some u
      → u.email_hash ≡ d.email_hash
      → p.user_create d db ≡ (err (prisma p2002), db)
  pub user_create_free :
      (d : UserData) (db : p.Db)
      → ((i : ℕ) (u : User) → p.user db i ≡ some u → u.email_hash ≢ d.email_hash)
      → (u : User) × (db' : p.Db) × (p.user_create d db ≡ (ok u, db'))
  pub user_update_ok :
      (i : ℕ) (patch : UserPatch) (db db' : p.Db) (u : User)
      → p.user_update i patch db ≡ (ok u, db')
      → (old : User) × (p.user db i ≡ some old)
        × (u ≡ apply_patch patch u.updated_at old)
        × ((j : ℕ) → p.user db' j ≡ (if i == j then some u else p.user db j))
        × ((j : ℕ) → p.session db' j ≡ p.session db j)
  pub user_update_err :
      (i : ℕ) (patch : UserPatch) (db db' : p.Db) (e : Failure)
      → p.user_update i patch db ≡ (err e, db')
      → db' ≡ db
  pub user_update_total :
      (i : ℕ) (patch : UserPatch) (db : p.Db) (old : User)
      → p.user db i ≡ some old
      → patch.email_hash ≡ none
      → is_null patch.first_name_enc ≡ false
      → is_null patch.last_name_enc ≡ false
      → (now : ℕ) × (db' : p.Db) × (p.user_update i patch db
          ≡ (ok (apply_patch patch now old), db'))
  pub user_update_taken :
      (i j : ℕ) (patch : UserPatch) (db : p.Db) (old v : User)
      → p.user db i ≡ some old
      → p.user db j ≡ some v
      → patch.email_hash ≡ some v.email_hash
      → i ≢ j
      → (is_null patch.first_name_enc || is_null patch.last_name_enc) ≡ false
      → p.user_update i patch db ≡ (err (prisma p2002), db)
  -- A required column does not take null.
  pub user_update_null :
      (i : ℕ) (patch : UserPatch) (db : p.Db)
      → (is_null patch.first_name_enc || is_null patch.last_name_enc) ≡ true
      → p.user_update i patch db ≡ (err (prisma validation), db)
  pub user_update_missing :
      (i : ℕ) (patch : UserPatch) (db : p.Db)
      → p.user db i ≡ none
      → (is_null patch.first_name_enc || is_null patch.last_name_enc) ≡ false
      → p.user_update i patch db ≡ (err (prisma p2025), db)
  pub user_delete_ok :
      (i : ℕ) (db db' : p.Db) (u : User)
      → p.user_delete i db ≡ (ok u, db')
      → ((j : ℕ) → p.user db' j ≡ (if i == j then none else p.user db j))
        × ((j : ℕ) → p.session db' j ≡ unless_owned i (p.session db j))
  pub user_delete_total :
      (i : ℕ) (db : p.Db) (u : User)
      → p.user db i ≡ some u
      → (db' : p.Db) × (p.user_delete i db ≡ (ok u, db'))
  pub session_create_ok :
      (d : SessionData) (db db' : p.Db) (s : Session)
      → p.session_create d db ≡ (ok s, db')
      → (s ≡ new_session d s.id s.created_at)
        × (p.session db s.id ≡ none)
        × ((j : ℕ) → p.session db' j ≡ (if s.id == j then some s else p.session db j))
        × ((j : ℕ) → p.user db' j ≡ p.user db j)
  pub session_create_err :
      (d : SessionData) (db db' : p.Db) (e : Failure)
      → p.session_create d db ≡ (err e, db')
      → db' ≡ db
  pub session_create_total :
      (d : SessionData) (db : p.Db) (u : User)
      → p.user db d.user_id ≡ some u
      → ((i : ℕ) (s : Session) → p.session db i ≡ some s → s.token_hash ≢ d.token_hash)
      → (s : Session) × (db' : p.Db) × (p.session_create d db ≡ (ok s, db'))
  pub session_revoke :
      (w : Session → Bool) (t : ℕ) (db : p.Db) (j : ℕ)
      → p.session (p.session_revoke_many w t db).1 j ≡ revoke_if w t (p.session db j)
  pub user_revoke :
      (w : Session → Bool) (t : ℕ) (db : p.Db) (j : ℕ)
      → p.user (p.session_revoke_many w t db).1 j ≡ p.user db j
  -- The count of a `where` clause that fixes the id.
  pub count_revoke :
      (w : Session → Bool) (t : ℕ) (db : p.Db) (i : ℕ)
      → ((s : Session) → w s ≡ true → s.id ≡ i)
      → (p.session_revoke_many w t db).0 ≡ count_if w (p.session db i)
