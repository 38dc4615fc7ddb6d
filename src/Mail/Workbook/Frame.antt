-- ===== src/Mail/Workbook/Frame.antt =====
-- The filled part of the sheet, and that nothing is written outside it.
use mathlib.Core.Path.{subst}
use baja_valle_service.Prelude.{
  sym, ℕ, zero, suc, ◌+◌, ◌≤◌, ◌<◌, ◌≡◌, refl, inl, inr, Bool, true, false, ◌&&◌, ◌||◌, ◌==◌,
  ==_iff, ==_refl, Bool-cases, List, [], ◌∷◌, ◌++◌, arith, All,
}
use baja_valle_service.Text.{Text}
use baja_valle_service.Mail.Sheet.{Numbers, CartMailDto, Call}
use baja_valle_service.Mail.Workbook.{
  cream_row, cream_rows, header, contact, table_headers, table, fill_rows, build_cart_workbook,
}
use baja_valle_service.Mail.Workbook.Area.{IsCell, IsInside, build_cart_workbook-IsInside}

or_true : (b : Bool) → (b || true) ≡ true
or_true false = refl
or_true true = refl

module _ {n : Numbers} (col row : ℕ) where
  -- The cell has been given a fill.
  unfoldable pub is_filled : List (Call n) → Bool
  is_filled [] = false
  is_filled (Call.fill c r _ ∷ calls) = (c == col && r == row) || is_filled calls
  is_filled (Call.value _ _ _ ∷ calls) = is_filled calls
  is_filled (Call.columns _ ∷ calls) = is_filled calls
  is_filled (Call.height _ _ ∷ calls) = is_filled calls
  is_filled (Call.font _ _ _ ∷ calls) = is_filled calls
  is_filled (Call.alignment _ _ _ ∷ calls) = is_filled calls
  is_filled (Call.num_fmt _ _ _ ∷ calls) = is_filled calls
  is_filled (Call.border _ _ _ ∷ calls) = is_filled calls
  is_filled (Call.merge _ _ _ _ ∷ calls) = is_filled calls

  is_filled-append : (xs ys : List (Call n)) → is_filled (xs ++ ys) ≡ (is_filled xs || is_filled ys)
  unfolding is_filled
  is_filled-append [] ys = refl
  is_filled-append (Call.fill c r _ ∷ xs) ys = rw (is_filled-append xs ys) (ground arith)
  is_filled-append (Call.value _ _ _ ∷ xs) ys = is_filled-append xs ys
  is_filled-append (Call.columns _ ∷ xs) ys = is_filled-append xs ys
  is_filled-append (Call.height _ _ ∷ xs) ys = is_filled-append xs ys
  is_filled-append (Call.font _ _ _ ∷ xs) ys = is_filled-append xs ys
  is_filled-append (Call.alignment _ _ _ ∷ xs) ys = is_filled-append xs ys
  is_filled-append (Call.num_fmt _ _ _ ∷ xs) ys = is_filled-append xs ys
  is_filled-append (Call.border _ _ _ ∷ xs) ys = is_filled-append xs ys
  is_filled-append (Call.merge _ _ _ _ ∷ xs) ys = is_filled-append xs ys

  is_filled-left : (xs ys : List (Call n)) → is_filled xs ≡ true → is_filled (xs ++ ys) ≡ true
  is_filled-left xs ys e = rw (is_filled-append xs ys, e) refl

  is_filled-right : (xs ys : List (Call n)) → is_filled ys ≡ true → is_filled (xs ++ ys) ≡ true
  is_filled-right xs ys e = rw (is_filled-append xs ys, e) (or_true (is_filled xs))

module _ (n : Numbers) (col row : ℕ) where
  cream_row-filled : 1 ≤ col → col ≤ 6 → is_filled col row (cream_row n row) ≡ true
  unfolding is_filled cream_row
  cream_row-filled h k = rw (==_refl row) (ground arith)

  cream_rows-filled :
      (left first : ℕ)
      → 1 ≤ col
      → col ≤ 6
      → first ≤ row
      → row < first + left
      → is_filled col row (cream_rows n left first) ≡ true
  unfolding cream_rows
  cream_rows-filled zero first h k l m = absurd (omega arith)
  cream_rows-filled (suc left) first h k l m = elim (Bool-cases (first == row)) [
    | inl here ↦ is_filled-left col row (cream_row n first) (cream_rows n left (first + 1)) (
        subst (λ r. is_filled col row (cream_row n r) ≡ true) (sym ((==_iff first row).0 here))
          (cream_row-filled h k))
    | inr later ↦
        is_filled-right col row (cream_row n first) (cream_rows n left (first + 1))
          (cream_rows-filled left (first + 1) h k (ground (arith, ==_iff first row)) (omega arith))
  ]

module _ {n : Numbers} where
  -- Rows of which every cell of the columns A to F is filled, and a sheet on which nothing is written
  -- outside them.
  pub record IsFramed (last : ℕ) (calls : List (Call n)) : Type 0 where
    pub filled : (col row : ℕ) → IsCell last col row → is_filled col row calls ≡ true
    pub inside : All (IsInside last) calls

  -- Every cell of the columns A to F is given a fill in the first 29 rows and in as many more as the
  -- cart has items, seven at least, and nothing is written outside these rows and columns.
  pub build_cart_workbook-IsFramed :
      (dto : CartMailDto n) (folio date : Text)
      → IsFramed (fill_rows n dto) (build_cart_workbook n dto folio date)
  unfolding build_cart_workbook is_filled
  build_cart_workbook-IsFramed dto folio date = record {
    filled = λ col row (h, k, l, m).
        is_filled-left col row (cream_rows n (fill_rows n dto) 1)
          (header n ++ (contact n dto folio date ++ (table_headers n ++ table n dto)))
          (cream_rows-filled n col row (fill_rows n dto) 1 h k l (omega arith));
    inside = build_cart_workbook-IsInside dto folio date;
  }
