-- ===== src/Sample.antt =====
-- An application on the sample Node.js and the database in memory, with two users and the sessions of
-- one of them, for the witnesses. It models no code of the repository.
use baja_valle_service.Prelude.{
  ℕ, ◌≡◌, refl, none, some, [], ◌∷◌, ◌++◌, inl, inr, arith, if◌then◌else◌,
}
use baja_valle_service.Text.{Text, codes, text_eq, trim}
use baja_valle_service.Text.Decimal.{to_string}
use baja_valle_service.Node.Sample.{sample, sample_laws, sample-IsText, encode, copies, fit}
use baja_valle_service.Prisma.{
  Role, User, Session, UserData, UserPatch, SessionData, no_change, new_user, new_session,
}
use baja_valle_service.Prisma.Memory.{empty, add_user, set_user, add_session, revoke}
use baja_valle_service.Prisma.Memory.Find.{find_below}
use baja_valle_service.Prisma.Memory.Table.{put-inv}
use baja_valle_service.Prisma.Memory.Calls.{memory}
use baja_valle_service.Prisma.Memory.Laws.{memory_laws}
use baja_valle_service.Encryption.{get, current_version, blind_index, format, seal, decrypt}
use baja_valle_service.Encryption.Laws.{encrypt_total, decrypt-encrypt}
use baja_valle_service.Exec.{ok}
use baja_valle_service.Password.{default_params, phc_text}
use baja_valle_service.Users
use baja_valle_service.Users.Field
use baja_valle_service.Sessions.{hash_token, is_open}
use baja_valle_service.App.{App, AppLaws, State, Jwt}

abbrev pub jwt : Jwt
jwt = record {
  sign = λ time p. codes "x." ++ (to_string p.sub ++ codes ".y");
  verify = λ time token.
      if text_eq token (codes "x.0.y")
      then some (record { sub = 0; role = Role.client; sid = 0 })
      else none;
}

unfoldable pub app : App
app = record {
  node = sample;
  prisma = memory;
  jwt = jwt;
  encryption_keys = (1, 7 ∷ []) ∷ [];
  blind_index_key = 7 ∷ [];
  jwt_access_ttl_seconds = 900;
  refresh_token_ttl_days = 30;
  common_passwords = codes "password1234" ∷ [];
}

pub laws : AppLaws app
unfolding app get current_version
laws = record {
  node_laws = sample_laws;
  prisma_laws = memory_laws;
  version_positive = omega arith;
  current_key = 7 ∷ [];
  ring_current = refl;
}

pub any-IsText : (t : Text) → laws.node_laws.IsText t
unfolding laws
any-IsText t = sample-IsText t

unfoldable pub start : State app
unfolding app
start = record { db = empty; ticks = 0; draws = 0; log = []; dummy_hash = none }

abbrev pub ana_email : Text
ana_email = codes "ana@x.mx"

abbrev pub bob_email : Text
bob_email = codes "bob@x.mx"

-- A text as `encrypt` seals it.
abbrev pub sealed : Text → Text → Text
sealed t context = format sample (seal sample 1 (7 ∷ []) (sample.random_bytes 0 12) t context)

-- The stored password is "hidden word".
unfoldable pub account : Text → UserData
account email = record {
  email_hash = Users.email_hash app email;
  email_enc = sealed email Field.email;
  first_name_enc = sealed (codes "Ana") Field.first_name;
  last_name_enc = sealed (codes "Sosa") Field.last_name;
  password_hash = phc_text sample default_params (copies 16 1) (fit 32 (codes "hidden word"));
  role = Role.client;
}

unfoldable pub ana : User
unfolding account
ana = new_user (account ana_email) 0 0 0

unfoldable pub bob : User
unfolding account
bob = new_user (account bob_email) 1 0 0

unfoldable pub one_user : State app
unfolding app start account add_user find_below
one_user = record start { db = (memory.user_create (account ana_email) start.db).1 }

pub one_user-ana : app.prisma.user one_user.db 0 ≡ some ana
unfolding one_user ana find_below add_user
one_user-ana = refl

unfoldable pub two_users : State app
unfolding one_user
two_users = record one_user { db = (memory.user_create (account bob_email) one_user.db).1 }

pub two_users-ana : app.prisma.user two_users.db 0 ≡ some ana
unfolding two_users ana account find_below add_user Users.email_hash Users.normalize_email
    blind_index trim sample encode
two_users-ana = refl

pub two_users-bob : app.prisma.user two_users.db 1 ≡ some bob
unfolding two_users bob account find_below add_user Users.email_hash Users.normalize_email
    blind_index trim sample encode
two_users-bob = refl

-- The session of ana with the token "t".
unfoldable pub first_session : SessionData
first_session = record {
  user_id = 0;
  family_id = 5;
  token_hash = hash_token app (codes "t");
  expires_at = 100000;
  user_agent = none;
}

unfoldable pub ana_session : Session
unfolding first_session
ana_session = new_session first_session 0 0

unfoldable pub one_session : State app
unfolding one_user first_session
one_session = record one_user { db = (memory.session_create first_session one_user.db).1 }

pub one_session-row : app.prisma.session one_session.db 0 ≡ some ana_session
unfolding one_session ana_session find_below add_user add_session
one_session-row = refl

-- The same session, used at 1000.
unfoldable pub spent_session : Session
unfolding ana_session
spent_session = record ana_session { revoked_at = some 1000 }

unfoldable pub one_spent : State app
unfolding one_session
one_spent = record one_session {
  db = (memory.session_revoke_many (is_open 0) 1000 one_session.db).1;
}

pub one_spent-row : app.prisma.session one_spent.db 0 ≡ some spent_session
unfolding one_spent spent_session find_below add_user add_session revoke
one_spent-row = refl

-- No other session is there.
pub one_session-only :
    (i : ℕ) (s : Session) → app.prisma.session one_session.db i ≡ some s → s ≡ ana_session
unfolding one_session ana_session find_below add_user add_session
one_session-only i s e = elim (put-inv (λ j. none) 0 i (new_session first_session 0 0) s e) [
  | inl (_, same) ↦ same
  | inr (_, there) ↦ cc
]

-- The user ana, locked until 50000.
unfoldable pub ana_locked : User
unfolding ana
ana_locked = record ana { locked_until = some 50000; updated_at = 1 }

abbrev locking : UserPatch
locking = record no_change { locked_until = some (some 50000) }

unfoldable pub one_locked : State app
unfolding one_user
one_locked = record one_user { db = (memory.user_update 0 locking one_user.db).1 }

pub one_locked-ana : app.prisma.user one_locked.db 0 ≡ some ana_locked
unfolding one_locked ana_locked account find_below add_user set_user Users.email_hash
    Users.normalize_email blind_index trim sample encode
one_locked-ana = refl

pub opens :
    (t context : Text) → decrypt app.node app.encryption_keys (sealed t context) context ≡ ok t
unfolding app get current_version start
opens t context =
    (decrypt-encrypt sample sample_laws app.encryption_keys t context (sealed t context) start
      (record start { draws = 1 }) (omega arith) (sample-IsText t)
      (encrypt_total sample sample_laws app.encryption_keys (7 ∷ []) t context start refl)).0
