-- ===== src/App.antt =====
-- What Nest injects into the services: the database client, the configuration read from the
-- environment, the JWT service, and the interface to Node.js.
use baja_valle_service.Prelude.{ℕ, ◌≤◌, ◌≡◌, Option, some, List}
use baja_valle_service.Text.{Text}
use baja_valle_service.Node.{Node, NodeLaws, Bytes}
use baja_valle_service.Prisma.{Role, Prisma}
use baja_valle_service.Prisma.Laws.{PrismaLaws}
use baja_valle_service.Exec.{Exec}
use baja_valle_service.World.{World}
use baja_valle_service.Encryption.{Keys, get, current_version}

-- AccessTokenPayload of src/auth/auth.types.ts
pub record AccessTokenPayload : Type 0 where
  pub sub : ℕ
  pub role : Role
  pub sid : ℕ

-- JwtService, at a reading of the clock; `none` is the throw of `verifyAsync`.
pub record Jwt : Type 0 where
  pub sign : ℕ → AccessTokenPayload → Text
  pub verify : ℕ → Text → Option AccessTokenPayload

pub record App : Type 1 where
  pub node : Node
  pub prisma : Prisma
  pub jwt : Jwt
  pub encryption_keys : Keys
  pub blind_index_key : Bytes
  pub jwt_access_ttl_seconds : ℕ
  pub refresh_token_ttl_days : ℕ
  pub common_passwords : List Text

-- A method of a service: it changes the world and returns or throws.
abbrev pub Action : App → Type 0 → Type 0
Action app A = Exec (World app.prisma.Db) A

abbrev pub State : App → Type 0
State app = World app.prisma.Db

-- The behaviour that is relied on of what the application is built on, and what the validation of
-- the environment (src/config/env.ts) gives: the key ring has its current key, whose version is
-- positive.
pub record AppLaws (app : App) : Type 1 where
  pub node_laws : NodeLaws app.node
  pub prisma_laws : PrismaLaws app.prisma
  pub version_positive : 1 ≤ current_version app.encryption_keys
  pub current_key : Bytes
  pub ring_current :
      get app.encryption_keys (current_version app.encryption_keys) ≡ some current_key
