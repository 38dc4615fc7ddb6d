-- ===== src/Wiring.antt =====
-- How the checked environment reaches the services: the constructors that read it from the
-- ConfigService, the options of JwtModule in src/auth/auth.module.ts, and the throttlers of
-- src/app.module.ts.
pub mod Laws
pub mod Tests
use baja_valle_service.Prelude.{ℕ, List, [], ◌∷◌}
use baja_valle_service.Text.{Text, codes}
use baja_valle_service.Node.{Node, Bytes}
use baja_valle_service.Prisma.{Prisma}
use baja_valle_service.App.{App, Jwt}
use baja_valle_service.Env.{Env}
use baja_valle_service.RateLimit.{Throttler, build_throttlers}

-- JwtModuleOptions
pub record JwtOptions : Type 0 where
  pub secret : Bytes
  pub algorithm : Text
  pub expires_in : ℕ
  pub issuer : Text
  pub audience : Text
  pub verify_algorithms : List Text
  pub verify_issuer : Text
  pub verify_audience : Text

-- JwtModule.registerAsync's useFactory
unfoldable pub jwt_options : Env → JwtOptions
jwt_options env = record {
  secret = env.jwt_access_secret;
  algorithm = codes "HS256";
  expires_in = env.jwt_access_ttl_seconds;
  issuer = env.jwt_issuer;
  audience = env.jwt_audience;
  verify_algorithms = codes "HS256" ∷ [];
  verify_issuer = env.jwt_issuer;
  verify_audience = env.jwt_audience;
}

-- The services with what their constructors read. `jwt` stands for @nestjs/jwt.
unfoldable pub configure : Node → Prisma → (JwtOptions → Jwt) → List Text → Env → App
unfolding jwt_options
configure node prisma jwt common_passwords env = record {
  node = node;
  prisma = prisma;
  jwt = jwt (jwt_options env);
  encryption_keys = env.encryption_keys;
  blind_index_key = env.blind_index_key;
  jwt_access_ttl_seconds = env.jwt_access_ttl_seconds;
  refresh_token_ttl_days = env.refresh_token_ttl_days;
  common_passwords = common_passwords;
}

-- ThrottlerModule.forRootAsync's useFactory
unfoldable pub throttlers : Env → List Throttler
throttlers env = build_throttlers env.limits
