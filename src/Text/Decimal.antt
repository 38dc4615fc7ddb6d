-- ===== src/Text/Decimal.antt =====
-- Decimal numerals: `Number(s)` and `BigInt(s)` on digits, and `String(n)`.
use baja_valle_service.Prelude.{
  ℕ, zero, suc, ◌+◌, ◌-◌, ◌*◌, ◌/◌, ◌%◌, ◌≤◌, ◌<◌, ◌≡◌, ◌≢◌, refl, ap, ◌∙◌, sym, true, [], ◌∷◌,
  ◌++◌, arith, ltb, if◌then◌else◌, Bool-cases, inl, inr, all, all-append,
}
use mathlib.Core.List.{append_assoc, append-nil}
use baja_valle_service.Text.{Text, is_digit}

-- The value of a text of digits, read from the left.
unfoldable pub number_from : ℕ → Text → ℕ
number_from acc [] = acc
number_from acc (c ∷ s) = number_from (acc * 10 + (c - b'0')) s

unfoldable pub number : Text → ℕ
unfolding number_from
number s = number_from 0 s

-- The digits of a number below the fuel.
decimal : ℕ → ℕ → Text
decimal zero n = []
decimal (suc f) n =
    let front = decimal f (n / 10) in
    if ltb n 10 then (b'0' + n) ∷ [] else front ++ (b'0' + n % 10) ∷ []

unfoldable pub to_string : ℕ → Text
unfolding decimal
to_string n = decimal (suc n) n

-- Any two amounts of fuel above the number give the same digits.
decimal_fuel : (f g n : ℕ) → n < f → n < g → decimal f n ≡ decimal g n
unfolding decimal
decimal_fuel zero g n h k = elim h [ ]
decimal_fuel (suc f) zero n h k = elim k [ ]
decimal_fuel (suc f) (suc g) n h k = elim (Bool-cases (ltb n 10)) [
  | inl small ↦ rw small
  | inr large ↦ rw (large, decimal_fuel f g (n / 10) (ground arith) (ground arith))
]

pub to_string_digit : (d : ℕ) → d < 10 → to_string d ≡ (b'0' + d) ∷ []
unfolding to_string
to_string_digit d h = ground arith

pub to_string_step :
    (n d : ℕ) → 1 ≤ n → d < 10 → to_string (n * 10 + d) ≡ to_string n ++ (b'0' + d) ∷ []
unfolding to_string
to_string_step n d h k = ground (arith, decimal_fuel (n * 10 + d) (suc n) ((n * 10 + d) / 10))

number_from-append :
    (acc : ℕ) (s : Text) (c : ℕ)
    → number_from acc (s ++ c ∷ []) ≡ number_from acc s * 10 + (c - b'0')
unfolding number_from
number_from-append acc [] c = refl
number_from-append acc (x ∷ s) c = number_from-append (acc * 10 + (x - b'0')) s c

number-decimal : (f n : ℕ) → n < f → number_from 0 (decimal f n) ≡ n
unfolding decimal
number-decimal zero n h = elim h [ ]
number-decimal (suc f) n h = elim (Bool-cases (ltb n 10)) [
  | inl small ↦ rw small (unfold number_from in omega arith)
  | inr large ↦
      rw (large, number_from-append, number-decimal f (n / 10) (ground arith)) (omega arith)
]

-- Printing and reading a number gives it back.
pub number-to_string : (n : ℕ) → number (to_string n) ≡ n
unfolding number to_string
number-to_string n = number-decimal (suc n) n (omega arith)

digits-decimal : (f n : ℕ) → all is_digit (decimal f n) ≡ true
unfolding decimal
digits-decimal zero n = refl
digits-decimal (suc f) n = ground (
  arith,
  all-append is_digit (decimal f (n / 10)) ((b'0' + n % 10) ∷ []),
  digits-decimal f (n / 10),
)

-- Reading digits after a number of at least 1 and printing gives the number's digits and those.
pub to_string-number_from :
    (acc : ℕ) (s : Text)
    → 1 ≤ acc
    → all is_digit s ≡ true
    → to_string (number_from acc s) ≡ to_string acc ++ s
unfolding number_from
to_string-number_from acc [] h k = sym (append-nil _)
to_string-number_from acc (c ∷ s) h k =
    to_string-number_from (acc * 10 + (c - b'0')) s (omega arith) (ground arith)
    ∙ (rw (to_string_step acc (c - b'0') h (ground arith), append_assoc)
        (ap (λ d. to_string acc ++ d ∷ s) (ground arith)))

pub digits-to_string : (n : ℕ) → all is_digit (to_string n) ≡ true
unfolding to_string
digits-to_string n = digits-decimal (suc n) n

-- A number is at most the value of its digits followed by others.
pub number_from-ge : (acc : ℕ) (s : Text) → acc ≤ number_from acc s
unfolding number_from
number_from-ge acc [] = omega arith
number_from-ge acc (c ∷ s) = omega (arith, number_from-ge (acc * 10 + (c - b'0')) s)

module _ (P : Text → Type 0) (first : (d : ℕ) → 1 ≤ d → d < 10 → P ((b'0' + d) ∷ []))
    (next : (s : Text) (d : ℕ) → d < 10 → P s → P (s ++ (b'0' + d) ∷ [])) where
  decimal_induction : (f n : ℕ) → 1 ≤ n → n < f → P (decimal f n)
  unfolding decimal
  decimal_induction zero n h k = elim k [ ]
  decimal_induction (suc f) n h k = elim (Bool-cases (ltb n 10)) [
    | inl small ↦ rw small (first n h (ground arith))
    | inr large ↦ rw large (
        next (decimal f (n / 10)) (n % 10) (omega arith)
          (decimal_induction f (n / 10) (ground arith) (ground arith)))
  ]

  -- Induction on the digits of a number of at least 1, from the left.
  pub to_string_induction : (n : ℕ) → 1 ≤ n → P (to_string n)
  unfolding to_string
  to_string_induction n h = decimal_induction (suc n) n h (omega arith)

snoc-ne-nil : (s : Text) (c : ℕ) → s ++ c ∷ [] ≢ []
snoc-ne-nil [] c e = cc
snoc-ne-nil (d ∷ s) c e = cc

-- Every number has a digit.
pub to_string-ne-nil : (n : ℕ) → to_string n ≢ []
unfolding to_string
to_string-ne-nil n e = ground (arith, snoc-ne-nil (decimal n (n / 10)) (b'0' + n % 10))
