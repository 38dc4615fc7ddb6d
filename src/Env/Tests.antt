-- ===== src/Env/Tests.antt =====
-- Runs of the theorems on the environment, with the sample Node.js.
use baja_valle_service.Prelude.{
  ℕ, ◌≡◌, refl, true, false, none, some, List, [], ◌∷◌, ◌++◌, map, arith, if◌then◌else◌,
}
use baja_valle_service.Text.{Text, codes, text_eq, join, split, trim, span, is_space}
use baja_valle_service.Text.Decimal.{number, number_from}
use baja_valle_service.ParseId.{is_positive_integer}
use baja_valle_service.Node.Sample.{sample, sample_laws, copies, encode}
use baja_valle_service.Exec.{ok}
use baja_valle_service.Encryption.{get}
use baja_valle_service.Env.{Env, Config, keys_differ, validate_env}
use baja_valle_service.Env.Fields.{
  Zod, decode_key, match_entry, versioned_keys, cors_origins, postgres_url, boolean_string,
}
use baja_valle_service.Env.RoundTrip.{entry_text, versioned_keys-join}
use baja_valle_service.Env.Laws.{HasKeys, validate_env-HasKeys}

-- A zod to which every text is the number 1, a URL and an email.
abbrev pub lenient : Zod
lenient = record {
  positive_int = λ t. some 1;
  is_url = λ t. true;
  is_http_url = λ t. true;
  is_email = λ t. true;
}

abbrev look_up : List (Text × Text) → Config
look_up [] name = none
look_up ((n, value) ∷ rest) name = if text_eq n name then some value else look_up rest name

abbrev key_text : ℕ → Text
key_text n = encode (copies 32 n)

abbrev pub config : Config
config = look_up (
    (codes "DATABASE_URL", codes "postgres://db")
    ∷ (codes "MAIL_HOST", codes "h")
    ∷ (codes "MAIL_PORT", codes "1")
    ∷ (codes "MAIL_SECURE", codes "true")
    ∷ (codes "MAIL_USER", codes "u")
    ∷ (codes "MAIL_PASS", codes "p")
    ∷ (codes "MAIL_TO", codes "t")
    ∷ (codes "ENCRYPTION_KEYS", codes "1:" ++ (key_text 1 ++ (codes ", 2:" ++ key_text 2)))
    ∷ (codes "BLIND_INDEX_KEY", key_text 3)
    ∷ (codes "JWT_ACCESS_SECRET", key_text 4)
    ∷ [])

abbrev pub env : Env
env = record {
  node_env = codes "development";
  port = 3000;
  database_url = codes "postgres://db";
  direct_url = none;
  cors_origins = [];
  swagger_enabled = false;
  limits = record {
    throttle_global_per_minute = 100;
    throttle_form_per_minute = 3;
    throttle_form_per_day = 20;
    throttle_auth_per_minute = 5;
    throttle_refresh_per_minute = 20;
    throttle_profile_per_15_minutes = 5;
  };
  mail_host = codes "h";
  mail_port = 1;
  mail_secure = true;
  mail_user = codes "u";
  mail_pass = codes "p";
  mail_to = codes "t";
  encryption_keys = (1, copies 32 1) ∷ (2, copies 32 2) ∷ [];
  blind_index_key = copies 32 3;
  jwt_access_secret = copies 32 4;
  jwt_access_ttl_seconds = 900;
  jwt_issuer = codes "baja-valle-api";
  jwt_audience = codes "baja-valle";
  refresh_token_ttl_days = 7;
}

pub accepted : validate_env lenient config sample ≡ ok env
unfolding validate_env keys_differ postgres_url boolean_string versioned_keys cors_origins
    decode_key match_entry is_positive_integer number number_from split trim is_space span get
    sample copies encode
accepted = refl

validate_env-HasKeys_example : HasKeys env
validate_env-HasKeys_example = validate_env-HasKeys sample sample_laws lenient config env accepted

versioned_keys-join_example :
    versioned_keys sample
      (join b',' (map (entry_text sample) ((12, copies 32 1) ∷ (7, copies 32 2) ∷ [])))
    ≡ some ((12, copies 32 1) ∷ (7, copies 32 2) ∷ [])
unfolding get copies
versioned_keys-join_example =
    versioned_keys-join sample sample_laws 12 (copies 32 1) ((7, copies 32 2) ∷ [])
      (record { entries = omega arith; apart = (refl, (refl, tt)) })
