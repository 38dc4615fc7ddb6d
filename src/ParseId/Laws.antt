-- ===== src/ParseId/Laws.antt =====
-- The id pipes accept exactly the canonical numerals in range, with the number that they denote.
use baja_valle_service.Prelude.{
  ℕ, ◌-◌, ◌+◌, ◌<◌, ◌++◌, all-append, ◌≤◌, ◌≡◌, ap, ◌∙◌, ◌↔◌, true, [], ◌∷◌, arith,
}
use native.Mathlib.Nat.{zero-add}
use baja_valle_service.Text.{Text, is_digit}
use baja_valle_service.Text.Decimal.{
  number, number_from, number_from-ge, to_string_induction, to_string, number-to_string,
  to_string-number_from, to_string_digit,
}
use baja_valle_service.Exec.{ok}
use baja_valle_service.ParseId.{
  is_positive_integer, parse_positive_id, transform_int, transform_bigint, pg_int_max,
  pg_bigint_max,
}

-- A text that the pattern accepts is the numeral of its value, which is at least 1.
pub to_string-number :
    (s : Text) → is_positive_integer s ≡ true → (1 ≤ number s) × (to_string (number s) ≡ s)
unfolding is_positive_integer number number_from
to_string-number [] h = cc
to_string-number (c ∷ s) h =
    let head : 1 ≤ c - b'0' = ground arith in
    (
      omega (arith, number_from-ge (c - b'0') s, ap (λ n. number_from n s) (zero-add (c - b'0'))),
      rw (zero-add (c - b'0')) (
          to_string-number_from (c - b'0') s head (ground arith)
          ∙ ap (λ t. t ++ s) (to_string_digit (c - b'0') (ground arith))
          ∙ ap (λ d. d ∷ s) (ground arith)),
    )

positive_step :
    (s : Text) (d : ℕ)
    → d < 10
    → is_positive_integer s ≡ true
    → is_positive_integer (s ++ (b'0' + d) ∷ []) ≡ true
unfolding is_positive_integer
positive_step [] d h k = cc
positive_step (c ∷ s) d h k = ground (arith, all-append is_digit s ((b'0' + d) ∷ []))

pub positive-to_string : (n : ℕ) → 1 ≤ n → is_positive_integer (to_string n) ≡ true
unfolding is_positive_integer
positive-to_string n h =
    to_string_induction (λ s. is_positive_integer s ≡ true) (λ d h k. ground arith) positive_step n
      h

parse_sound :
    (s : Text) (max n : ℕ)
    → parse_positive_id s max ≡ ok n
    → (s ≡ to_string n) × (1 ≤ n) × (n ≤ max)
unfolding parse_positive_id
parse_sound s max n h = ground (arith, to_string-number s)

parse_complete :
    (s : Text) (max n : ℕ)
    → (s ≡ to_string n) × (1 ≤ n) × (n ≤ max)
    → parse_positive_id s max ≡ ok n
unfolding parse_positive_id
parse_complete s max n (e, h, k) = rw e (ground (arith, positive-to_string n h, number-to_string n))

parse_positive_id_iff :
    (s : Text) (max n : ℕ)
    → (parse_positive_id s max ≡ ok n) ↔ ((s ≡ to_string n) × (1 ≤ n) × (n ≤ max))
unfolding parse_positive_id
parse_positive_id_iff s max n = (parse_sound s max n, parse_complete s max n)

-- The pipe for categories accepts a path segment exactly if it is the numeral, with no sign and no
-- leading zero, of a number from 1 to 2147483647, and hands that number on.
pub transform_int_iff :
    (s : Text) (n : ℕ) → (transform_int s ≡ ok n) ↔ ((s ≡ to_string n) × (1 ≤ n) × (n ≤ pg_int_max))
unfolding transform_int
transform_int_iff s n = parse_positive_id_iff s pg_int_max n

-- The pipe for products accepts a path segment exactly if it is the numeral, with no sign and no
-- leading zero, of a number from 1 to 9223372036854775807, and hands that number on.
pub transform_bigint_iff :
    (s : Text) (n : ℕ)
    → (transform_bigint s ≡ ok n) ↔ ((s ≡ to_string n) × (1 ≤ n) × (n ≤ pg_bigint_max))
unfolding transform_bigint
transform_bigint_iff s n = parse_positive_id_iff s pg_bigint_max n
