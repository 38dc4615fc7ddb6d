-- ===== src/RateLimit/Tests.antt =====
-- A run of the theorem on the rate limits.
use baja_valle_service.Prelude.{◌≡◌, none, some, All}
use baja_valle_service.Text.{codes}
use baja_valle_service.RateLimit.{
  RateLimitEnv, Throttler, build_throttlers, get_tracker, generate_key,
}
use baja_valle_service.RateLimit.Laws.{who, build_throttlers_keys}

abbrev env : RateLimitEnv
env = record {
  throttle_global_per_minute = 100;
  throttle_form_per_minute = 5;
  throttle_form_per_day = 20;
  throttle_auth_per_minute = 10;
  throttle_refresh_per_minute = 30;
  throttle_profile_per_15_minutes = 10;
}

build_throttlers_keys_example :
    All
      (λ (s : Throttler).
        All
          (λ (t : Throttler).
            generate_key (get_tracker (some (codes "7f")) (codes "10.0.0.1")) s.name
              ≡ generate_key (get_tracker none (codes "10.0.0.1")) t.name
            → (s.name ≡ t.name)
              × (who (some (codes "7f")) (codes "10.0.0.1") ≡ who none (codes "10.0.0.1")))
          (build_throttlers env))
      (build_throttlers env)
build_throttlers_keys_example =
    build_throttlers_keys env (some (codes "7f")) none (codes "10.0.0.1") (codes "10.0.0.1")
