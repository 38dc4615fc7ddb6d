-- ===== src/RateLimit.antt =====
-- src/common/rate-limit/rate-limit.policies.ts and src/common/rate-limit/app-throttler.guard.ts. The
-- counting is that of @nestjs/throttler; the address that its default tracker gives is an argument.
pub mod Laws
pub mod Tests
use baja_valle_service.Prelude.{
  ℕ, ◌*◌, ◌/◌, Bool, true, false, not, Option, none, some, List, [], ◌∷◌, ◌++◌,
}
use baja_valle_service.Text.{Text, codes}
use baja_valle_service.Text.Decimal.{to_string}
use baja_valle_service.Exec.{HttpException, Failure}

abbrev pub second : ℕ
second = 1000

abbrev pub minute : ℕ
minute = 60 * second

abbrev pub day : ℕ
day = 24 * 60 * minute

pub data RateLimitPolicy : Type 0 where
  form auth refresh profile : RateLimitPolicy

abbrev policy_eq : RateLimitPolicy → RateLimitPolicy → Bool
policy_eq RateLimitPolicy.form RateLimitPolicy.form = true
policy_eq RateLimitPolicy.auth RateLimitPolicy.auth = true
policy_eq RateLimitPolicy.refresh RateLimitPolicy.refresh = true
policy_eq RateLimitPolicy.profile RateLimitPolicy.profile = true
policy_eq _ _ = false

pub record RateLimitEnv : Type 0 where
  pub throttle_global_per_minute : ℕ
  pub throttle_form_per_minute : ℕ
  pub throttle_form_per_day : ℕ
  pub throttle_auth_per_minute : ℕ
  pub throttle_refresh_per_minute : ℕ
  pub throttle_profile_per_15_minutes : ℕ

-- ThrottlerOptions; `skip_if` is a test on the policy of the route.
pub record Throttler : Type 0 where
  pub name : Text
  pub ttl : ℕ
  pub limit : ℕ
  pub skip_if : Option RateLimitPolicy → Bool

-- policyOf(context) !== policy
abbrev pub is_other : RateLimitPolicy → Option RateLimitPolicy → Bool
is_other policy none = true
is_other policy (some p) = not (policy_eq p policy)

abbrev pub for_policy : RateLimitPolicy → Text → ℕ → ℕ → Throttler
for_policy policy name ttl limit = record {
  name = name;
  ttl = ttl;
  limit = limit;
  skip_if = is_other policy;
}

unfoldable pub build_throttlers : RateLimitEnv → List Throttler
build_throttlers env =
    (record {
      name = codes "global";
      ttl = minute;
      limit = env.throttle_global_per_minute;
      skip_if = λ policy. false;
    })
    ∷ for_policy RateLimitPolicy.form (codes "form-minute") minute env.throttle_form_per_minute
    ∷ for_policy RateLimitPolicy.form (codes "form-day") day env.throttle_form_per_day
    ∷ for_policy RateLimitPolicy.auth (codes "auth") minute env.throttle_auth_per_minute
    ∷ for_policy RateLimitPolicy.refresh (codes "refresh") minute env.throttle_refresh_per_minute
    ∷ for_policy RateLimitPolicy.profile (codes "profile") (15 * minute)
        env.throttle_profile_per_15_minutes
    ∷ []

-- getTracker: the id of `req.user`, if it is not empty, and else the address
unfoldable pub get_tracker : Option Text → Text → Text
get_tracker none ip = codes "ip:" ++ ip
get_tracker (some []) ip = codes "ip:" ++ ip
get_tracker (some (c ∷ s)) ip = codes "user:" ++ (c ∷ s)

-- generateKey
unfoldable pub generate_key : Text → Text → Text
generate_key tracker throttler_name = throttler_name ++ (b':' ∷ tracker)

-- What the code reads of a ThrottlerLimitDetail; `ttl` is a whole number of seconds, as above.
pub record LimitDetail : Type 0 where
  pub tracker : Text
  pub limit : ℕ
  pub ttl : ℕ
  pub time_to_block_expire : ℕ

-- The header that is set, the warning that is logged, and the rejection.
pub record Throttled : Type 0 where
  pub header : Text × Text
  pub warning : Text
  pub failure : Failure

-- throwThrottlingException
unfoldable pub throw_throttling_exception : Text → Text → LimitDetail → Throttled
throw_throttling_exception method path detail = record {
  header = (codes "Retry-After", to_string detail.time_to_block_expire);
  warning =
      codes "429 "
      ++ (method
          ++ (codes " "
              ++ (path
                  ++ (codes " tracker="
                      ++ (detail.tracker
                          ++ (codes " limit="
                              ++ (to_string detail.limit
                                  ++ (codes "/"
                                      ++ (to_string (detail.ttl / second)
                                          ++ (codes "s retryAfter="
                                              ++ (to_string detail.time_to_block_expire
                                                  ++ codes "s")))))))))));
  failure = Failure.http (
      HttpException.too_many_requests
        (codes "Demasiadas solicitudes. Intenta de nuevo más tarde."));
}
