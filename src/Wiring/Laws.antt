-- ===== src/Wiring/Laws.antt =====
-- The laws that the services rely on follow from the validation of the environment.
use baja_valle_service.Prelude.{◌≤◌, ◌≡◌, ◌≢◌, refl, some, List, [], ◌∷◌, arith, All}
use baja_valle_service.Text.{Text}
use baja_valle_service.Node.{Node, NodeLaws, Bytes}
use baja_valle_service.Prisma.{Prisma}
use baja_valle_service.Prisma.Laws.{PrismaLaws}
use baja_valle_service.Exec.{ok}
use baja_valle_service.Encryption.{Keys, get, current_version}
use baja_valle_service.Encryption.Laws.{get-current_version}
use baja_valle_service.App.{AppLaws, Jwt}
use baja_valle_service.Env.{Env, Config, validate_env}
use baja_valle_service.Env.Fields.{Zod}
use baja_valle_service.Env.Ring.{IsEntry}
use baja_valle_service.Env.Laws.{validate_env-HasKeys}
use baja_valle_service.Wiring.{JwtOptions, configure}

current_version_positive : (keys : Keys) → All IsEntry keys → keys ≢ [] → 1 ≤ current_version keys
unfolding current_version
current_version_positive [] h n = absurd (n refl)
current_version_positive ((v, key) ∷ keys) ((h, _), k) n = omega arith

current_key : (keys : Keys) → keys ≢ [] → (k : Bytes) × (get keys (current_version keys) ≡ some k)
current_key [] n = absurd (n refl)
current_key ((v, key) ∷ keys) n = get-current_version v key keys

-- An application that is built from an accepted environment meets the laws on its keys.
pub configure-AppLaws :
    (node : Node) (prisma : Prisma) (jwt : JwtOptions → Jwt) (common : List Text) (zod : Zod)
    (config : Config) (env : Env)
    → NodeLaws node
    → PrismaLaws prisma
    → validate_env zod config node ≡ ok env
    → AppLaws (configure node prisma jwt common env)
unfolding configure
configure-AppLaws node prisma jwt common zod config env node_laws prisma_laws e =
    let has = validate_env-HasKeys node node_laws zod config env e in
    let (key, found) = current_key env.encryption_keys has.one in
    record {
      node_laws = node_laws;
      prisma_laws = prisma_laws;
      version_positive = current_version_positive env.encryption_keys has.ring.entries has.one;
      current_key = key;
      ring_current = found;
    }
