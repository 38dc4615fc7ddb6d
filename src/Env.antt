-- ===== src/Env.antt =====
-- src/config/env.ts. What zod checks by itself (numbers, URLs, emails) is a record of arguments; the
-- transformations and refinements that the file adds are translated. The list of problems in the
-- message of the error is not modelled, and `Number` of a version is taken exactly.
pub mod Fields
pub mod Ring
pub mod RoundTrip
pub mod Laws
pub mod Tests
use baja_valle_service.Prelude.{
  ℕ, ◌*◌, ◌≡◌, Bool, true, false, not, ◌&&◌, ◌||◌, Option, none, some, List, [], ◌∷◌, ◌++◌, map,
  leb, ◌==◌, if◌then◌else◌, length, all, any, is_some,
}
use baja_valle_service.Text.{Text, codes, text_eq, split, trim, span, is_digit, is_prefix}
use baja_valle_service.Text.Decimal.{number}
use baja_valle_service.ParseId.{is_positive_integer}
use baja_valle_service.Node.{Node, Bytes}
use baja_valle_service.Exec.{Failure, Result, ok, err}
use baja_valle_service.Encryption.{Keys, get}
use baja_valle_service.RateLimit.{RateLimitEnv}
use baja_valle_service.Env.Fields.{
  Zod, decode_key, versioned_keys, cors_origins, postgres_url, boolean_string, node_env, non_empty,
  email, or_default, optional, required,
}

pub record Env : Type 0 where
  pub node_env : Text
  pub port : ℕ
  pub database_url : Text
  pub direct_url : Option Text
  pub cors_origins : List Text
  pub swagger_enabled : Bool
  pub limits : RateLimitEnv
  pub mail_host : Text
  pub mail_port : ℕ
  pub mail_secure : Bool
  pub mail_user : Text
  pub mail_pass : Text
  pub mail_to : Text
  pub encryption_keys : Keys
  pub blind_index_key : Bytes
  pub jwt_access_secret : Bytes
  pub jwt_access_ttl_seconds : ℕ
  pub jwt_issuer : Text
  pub jwt_audience : Text
  pub refresh_token_ttl_days : ℕ

-- process.env
abbrev pub Config : Type 0
Config = Text → Option Text

infixl 5 ◌>>=◌
abbrev ◌>>=◌ {ℓ} : {A B : Type ℓ} → Option A → (A → Option B) → Option B
none >>= f = none
some a >>= f = f a

-- new Set(keys).size === keys.length
all_distinct : List Text → Bool
all_distinct [] = true
all_distinct (k ∷ keys) = not (any (text_eq k) keys) && all_distinct keys

abbrev pub values : Keys → List Bytes
values [] = []
values ((v, key) ∷ keys) = key ∷ values keys

-- The last refinement.
unfoldable pub keys_differ : Node → Env → Bool
unfolding all_distinct values
keys_differ node env = all_distinct (
    map node.to_hex
      (values env.encryption_keys ++ (env.blind_index_key ∷ env.jwt_access_secret ∷ [])))

module _ (zod : Zod) (config : Config) where
  rate_limits : Option RateLimitEnv
  unfolding or_default
  rate_limits = do
    global ← or_default 100 zod.positive_int (config (codes "THROTTLE_GLOBAL_PER_MINUTE"))
    form_minute ← or_default 3 zod.positive_int (config (codes "THROTTLE_FORM_PER_MINUTE"))
    form_day ← or_default 20 zod.positive_int (config (codes "THROTTLE_FORM_PER_DAY"))
    auth ← or_default 5 zod.positive_int (config (codes "THROTTLE_AUTH_PER_MINUTE"))
    refresh ← or_default 20 zod.positive_int (config (codes "THROTTLE_REFRESH_PER_MINUTE"))
    profile ← or_default 5 zod.positive_int (config (codes "THROTTLE_PROFILE_PER_15_MINUTES"))
    some (record {
      throttle_global_per_minute = global;
      throttle_form_per_minute = form_minute;
      throttle_form_per_day = form_day;
      throttle_auth_per_minute = auth;
      throttle_refresh_per_minute = refresh;
      throttle_profile_per_15_minutes = profile;
    })

  -- z.object({ … })
  parse_object : Node → Option Env
  parse_object node = do
    env ← or_default (codes "development") node_env (config (codes "NODE_ENV"))
    port ← or_default 3000 zod.positive_int (config (codes "PORT"))
    database_url ← required (postgres_url zod) (config (codes "DATABASE_URL"))
    direct_url ← optional (postgres_url zod) (config (codes "DIRECT_URL"))
    origins ← or_default [] (cors_origins zod) (config (codes "CORS_ORIGINS"))
    swagger ← or_default false boolean_string (config (codes "SWAGGER_ENABLED"))
    limits ← rate_limits
    mail_host ← required non_empty (config (codes "MAIL_HOST"))
    mail_port ← required zod.positive_int (config (codes "MAIL_PORT"))
    mail_secure ← required boolean_string (config (codes "MAIL_SECURE"))
    mail_user ← required non_empty (config (codes "MAIL_USER"))
    mail_pass ← required non_empty (config (codes "MAIL_PASS"))
    mail_to ← required (email zod) (config (codes "MAIL_TO"))
    keys ← required (versioned_keys node) (config (codes "ENCRYPTION_KEYS"))
    blind ← required (decode_key node) (config (codes "BLIND_INDEX_KEY"))
    secret ← required (decode_key node) (config (codes "JWT_ACCESS_SECRET"))
    ttl ← or_default (15 * 60) zod.positive_int (config (codes "JWT_ACCESS_TTL_SECONDS"))
    issuer ← or_default (codes "baja-valle-api") non_empty (config (codes "JWT_ISSUER"))
    audience ← or_default (codes "baja-valle") non_empty (config (codes "JWT_AUDIENCE"))
    days ← or_default 7 zod.positive_int (config (codes "REFRESH_TOKEN_TTL_DAYS"))
    some (record {
      node_env = env;
      port = port;
      database_url = database_url;
      direct_url = direct_url;
      cors_origins = origins;
      swagger_enabled = swagger;
      limits = limits;
      mail_host = mail_host;
      mail_port = mail_port;
      mail_secure = mail_secure;
      mail_user = mail_user;
      mail_pass = mail_pass;
      mail_to = mail_to;
      encryption_keys = keys;
      blind_index_key = blind;
      jwt_access_secret = secret;
      jwt_access_ttl_seconds = ttl;
      jwt_issuer = issuer;
      jwt_audience = audience;
      refresh_token_ttl_days = days;
    })

  refine : Node → Option Env → Result Env
  refine node none = err (Failure.error (codes "Variables de entorno inválidas"))
  refine node (some env) =
      if keys_differ node env
      then ok env
      else err (Failure.error (codes "Variables de entorno inválidas"))

  unfoldable pub validate_env : Node → Result Env
  unfolding parse_object refine or_default optional required rate_limits node_env non_empty email
  validate_env node = refine node (parse_object node)
