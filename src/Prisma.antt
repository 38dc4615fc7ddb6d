-- ===== src/Prisma.antt =====
-- The rows of prisma/schema.prisma, and the generated client (src/prisma/prisma.service.ts) as an
-- interface: the calls that the services make, on an abstract database. The client is generated and
-- stands on PostgreSQL; `Prisma/Laws.antt` states the documented behaviour that is relied on.
-- A UUID is the 128-bit number that it writes, a date the milliseconds since 1970.
pub mod Laws
pub mod Memory
use baja_valle_service.Prelude.{
  ℕ, ◌+◌, ◌≡◌, Bool, true, false, ◌&&◌, Option, none, some, List, ◌==◌, if◌then◌else◌,
}
use baja_valle_service.Text.{Text}
use baja_valle_service.Exec.{Exec}

pub data Role : Type 0 where
  admin client : Role

abbrev pub role_eq : Role → Role → Bool
role_eq Role.admin Role.admin = true
role_eq Role.admin Role.client = false
role_eq Role.client Role.admin = false
role_eq Role.client Role.client = true

pub record User : Type 0 where
  pub id : ℕ
  pub email_hash : Text
  pub email_enc : Text
  pub first_name_enc : Text
  pub last_name_enc : Text
  pub password_hash : Text
  pub role : Role
  pub failed_login_attempts : ℕ
  pub locked_until : Option ℕ
  pub created_at : ℕ
  pub updated_at : ℕ

pub record Session : Type 0 where
  pub id : ℕ
  pub user_id : ℕ
  pub token_hash : Text
  pub family_id : ℕ
  pub expires_at : ℕ
  pub revoked_at : Option ℕ
  pub user_agent : Option Text
  pub created_at : ℕ

-- The `data` of user.create; the columns with a default are left out.
pub record UserData : Type 0 where
  pub email_hash : Text
  pub email_enc : Text
  pub first_name_enc : Text
  pub last_name_enc : Text
  pub password_hash : Text
  pub role : Role

-- The row that user.create writes, for an id and the dates of @default(now()) and @updatedAt.
abbrev pub new_user : UserData → ℕ → ℕ → ℕ → User
new_user d id created updated = record {
  id = id;
  email_hash = d.email_hash;
  email_enc = d.email_enc;
  first_name_enc = d.first_name_enc;
  last_name_enc = d.last_name_enc;
  password_hash = d.password_hash;
  role = d.role;
  failed_login_attempts = 0;
  locked_until = none;
  created_at = created;
  updated_at = updated;
}

-- A text of a request or of an update, as JavaScript has it.
pub data Value : Type 0 where
  undefined null : Value
  text : Text → Value

-- { set: n } and { increment: n }
pub data Change : Type 0 where
  set increment : ℕ → Change

-- The `data` of user.update: what is undefined stays as it is.
pub record UserPatch : Type 0 where
  pub email_hash : Option Text
  pub email_enc : Option Text
  pub first_name_enc : Value
  pub last_name_enc : Value
  pub password_hash : Option Text
  pub role : Option Role
  pub failed_login_attempts : Option Change
  pub locked_until : Option (Option ℕ)

abbrev pub no_change : UserPatch
no_change = record {
  email_hash = none;
  email_enc = none;
  first_name_enc = Value.undefined;
  last_name_enc = Value.undefined;
  password_hash = none;
  role = none;
  failed_login_attempts = none;
  locked_until = none;
}

abbrev pub get_or {ℓ} : {A : Type ℓ} → Option A → A → A
get_or none d = d
get_or (some a) d = a

abbrev pub value_or : Value → Text → Text
value_or (Value.text t) d = t
value_or _ d = d

abbrev pub change_or : Option Change → ℕ → ℕ
change_or none n = n
change_or (some (Change.set k)) n = k
change_or (some (Change.increment k)) n = n + k

-- The row that user.update writes; @updatedAt sets the date of the update.
abbrev pub apply_patch : UserPatch → ℕ → User → User
apply_patch p now u = record u {
  email_hash = get_or p.email_hash u.email_hash;
  email_enc = get_or p.email_enc u.email_enc;
  first_name_enc = value_or p.first_name_enc u.first_name_enc;
  last_name_enc = value_or p.last_name_enc u.last_name_enc;
  password_hash = get_or p.password_hash u.password_hash;
  role = get_or p.role u.role;
  failed_login_attempts = change_or p.failed_login_attempts u.failed_login_attempts;
  locked_until = get_or p.locked_until u.locked_until;
  updated_at = now;
}

abbrev pub is_null : Value → Bool
is_null Value.null = true
is_null _ = false

-- The `data` of session.create.
pub record SessionData : Type 0 where
  pub user_id : ℕ
  pub family_id : ℕ
  pub token_hash : Text
  pub expires_at : ℕ
  pub user_agent : Option Text

abbrev pub new_session : SessionData → ℕ → ℕ → Session
new_session d id created = record {
  id = id;
  user_id = d.user_id;
  token_hash = d.token_hash;
  family_id = d.family_id;
  expires_at = d.expires_at;
  revoked_at = none;
  user_agent = d.user_agent;
  created_at = created;
}

-- The calls. A `where` clause is a test on rows.
pub record Prisma : Type 1 where
  pub Db : Type 0
  -- findUnique({ where: { id } })
  pub user : Db → ℕ → Option User
  pub session : Db → ℕ → Option Session
  pub user_find : (User → Bool) → Db → Option User
  pub user_create : UserData → Exec Db User
  pub user_update : ℕ → UserPatch → Exec Db User
  pub user_delete : ℕ → Exec Db User
  -- with `user` included
  pub session_find : (Session → Bool) → Db → Option (Session × User)
  pub session_create : SessionData → Exec Db Session
  -- updateMany({ where, data: { revokedAt } }), with its count
  pub session_revoke_many : (Session → Bool) → ℕ → Db → ℕ × Db
