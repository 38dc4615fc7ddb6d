-- ===== src/ParseId.antt =====
-- src/common/pipes/parse-id.pipe.ts
pub mod Laws
pub mod Tests
use baja_valle_service.Prelude.{
  ℕ, ◌^◌, ◌-◌, Bool, false, not, ◌&&◌, ◌||◌, [], ◌∷◌, ltb, leb, if◌then◌else◌, all,
}
use baja_valle_service.Text.{Text, codes, is_digit}
use baja_valle_service.Text.Decimal.{number}
use baja_valle_service.Exec.{http, Result, ok, err}
use baja_valle_service.Exec.{HttpException}

-- POSITIVE_INTEGER.test(value), for /^[1-9]\d*$/
unfoldable pub is_positive_integer : Text → Bool
is_positive_integer [] = false
is_positive_integer (c ∷ s) = leb b'1' c && leb c b'9' && all is_digit s

abbrev pub pg_int_max : ℕ
pg_int_max = 2147483647

abbrev pub pg_bigint_max : ℕ
pg_bigint_max = 9223372036854775807

unfoldable pub parse_positive_id : Text → ℕ → Result ℕ
unfolding is_positive_integer
parse_positive_id value max =
    if not (is_positive_integer value) || ltb max (number value)
    then err (http (HttpException.bad_request (codes "El id debe ser un entero positivo válido")))
    else ok (number value)

-- ParseIntIdPipe.transform
unfoldable pub transform_int : Text → Result ℕ
unfolding parse_positive_id
transform_int value = parse_positive_id value pg_int_max

-- ParseBigIntIdPipe.transform
unfoldable pub transform_bigint : Text → Result ℕ
unfolding parse_positive_id
transform_bigint value = parse_positive_id value pg_bigint_max
