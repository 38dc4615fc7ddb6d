-- ===== src/ParseId/Tests.antt =====
-- Runs of the theorems on the identifiers of paths.
use baja_valle_service.Prelude.{◌≡◌, ◌≤◌, ◌↔◌}
use baja_valle_service.Text.{codes}
use baja_valle_service.Text.Decimal.{to_string}
use baja_valle_service.Exec.{ok}
use baja_valle_service.ParseId.{transform_bigint, pg_bigint_max}
use baja_valle_service.ParseId.Laws.{transform_bigint_iff}

transform_bigint_iff_example : (transform_bigint (codes "9000000000") ≡ ok 9000000000) ↔ (
    (codes "9000000000" ≡ to_string 9000000000) × (1 ≤ 9000000000) × (9000000000 ≤ pg_bigint_max))
transform_bigint_iff_example = transform_bigint_iff (codes "9000000000") 9000000000
