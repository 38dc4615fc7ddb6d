-- ===== src/Mail/Workbook/Values.antt =====
-- What a cell of the sheet holds after a sequence of calls.
use baja_valle_service.Prelude.{
  ℕ, ◌≡◌, refl, ◌&&◌, Option, none, some, List, [], ◌∷◌, ◌++◌, arith, ◌==◌, if◌then◌else◌,
}
use baja_valle_service.Mail.Sheet.{Numbers, CellValue, Call}

-- The first that is there.
abbrev pub or_else {ℓ} : {A : Type ℓ} → Option A → Option A → Option A
or_else (some a) o = some a
or_else none o = o

or_else_assoc {ℓ} :
    {A : Type ℓ} (a b c : Option A) → or_else (or_else a b) c ≡ or_else a (or_else b c)
or_else_assoc (some x) b c = refl
or_else_assoc none b c = refl

or_else-none {ℓ} : {A : Type ℓ} (a : Option A) → or_else a none ≡ a
or_else-none (some x) = refl
or_else-none none = refl

module _ {n : Numbers} (col row : ℕ) where
  -- What a call assigns to the value of the cell.
  unfoldable pub assigned : Call n → Option (CellValue n)
  assigned (Call.value c r v) = if c == col && r == row then some v else none
  assigned (Call.columns _) = none
  assigned (Call.height _ _) = none
  assigned (Call.fill _ _ _) = none
  assigned (Call.font _ _ _) = none
  assigned (Call.alignment _ _ _) = none
  assigned (Call.num_fmt _ _ _) = none
  assigned (Call.border _ _ _) = none
  assigned (Call.merge _ _ _ _) = none

  -- The value of the cell in the end: the last that was assigned.
  unfoldable pub value_at : List (Call n) → Option (CellValue n)
  unfolding assigned
  value_at [] = none
  value_at (call ∷ calls) = or_else (value_at calls) (assigned call)

  pub value_at-append :
      (xs ys : List (Call n)) → value_at (xs ++ ys) ≡ or_else (value_at ys) (value_at xs)
  unfolding value_at
  value_at-append [] ys = ground (arith, or_else-none (value_at ys))
  value_at-append (x ∷ xs) ys =
      ground (arith, value_at-append xs ys, or_else_assoc (value_at ys) (value_at xs) (assigned x))

  -- A value that a later part of the calls assigns is the value after all of them.
  pub value_at-later :
      (xs ys : List (Call n)) (v : CellValue n)
      → value_at ys ≡ some v
      → value_at (xs ++ ys) ≡ some v
  value_at-later xs ys v e = ground (arith, value_at-append xs ys)

  -- What follows and does not assign the cell may be left out.
  pub value_at-earlier :
      (xs ys : List (Call n)) → value_at ys ≡ none → value_at (xs ++ ys) ≡ value_at xs
  value_at-earlier xs ys e = ground (arith, value_at-append xs ys)
