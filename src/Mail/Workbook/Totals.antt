-- ===== src/Mail/Workbook/Totals.antt =====
-- The sums under the table.
use mathlib.Core.Path.{subst}
use Prim.Native.Nat.{max}
use baja_valle_service.Prelude.{
  ℕ, ◌+◌, ◌-◌, ◌≡◌, refl, some, List, [], ◌∷◌, ◌++◌, map, arith, ==_iff, length,
}
use baja_valle_service.Text.{Text, codes}
use baja_valle_service.Mail.Workbook.{
  item_rows, empty_rows, totals, table, row_total, build_cart_workbook, cream_rows, header, contact,
  table_headers,
}
use baja_valle_service.Mail.Sheet.{
  Numbers, CartItemDto, CartMailDto, CellValue, Call, min_item_rows,
}
use baja_valle_service.Mail.Workbook.Values.{assigned, value_at, value_at-later}
use baja_valle_service.Mail.Workbook.Items.{item_rows-current_row}

module _ (n : Numbers) where
  sum_from : n.Num → List n.Num → n.Num
  sum_from s [] = s
  sum_from s (x ∷ xs) = sum_from (n.add s x) xs

  -- The products of quantity and price, added from the first to the last.
  unfoldable pub cart_total : List (CartItemDto n) → n.Num
  unfolding sum_from
  cart_total items = sum_from n.nought (map (λ item. n.mul item.cantidad item.precio) items)

  item_rows-subtotal :
      (items : List (CartItemDto n)) (i : ℕ) (s : n.Num) (row : ℕ)
      → (item_rows n items i s row).subtotal ≡ sum_from s (map (row_total n) items)
  unfolding item_rows sum_from
  item_rows-subtotal [] i s row = refl
  item_rows-subtotal (item ∷ items) i s row =
      item_rows-subtotal items (i + 1) (n.add s (row_total n item)) (row + 1)

module _ {n : Numbers} where
  -- The labels and the numbers of the sums, from a row on.
  pub record IsTotalAt (calls : List (Call n)) (row : ℕ) (sum : n.Num) : Type 0 where
    pub subtotal_label : value_at 4 row calls ≡ some (CellValue.text (codes "SUBTOTAL"))
    pub subtotal : value_at 5 row calls ≡ some (CellValue.number sum)
    pub total_label : value_at 4 (row + 3) calls ≡ some (CellValue.text (codes "TOTAL"))
    pub total : value_at 5 (row + 3) calls ≡ some (CellValue.number sum)

  totals-IsTotalAt : (row : ℕ) (s : n.Num) → IsTotalAt (totals n row s) row s
  unfolding totals value_at assigned
  totals-IsTotalAt row s =
      let here = ==_iff row row in
      let there = ==_iff (row + 3) (row + 3) in
      record {
        subtotal_label =
            ground (arith, here, ==_iff (row + 1) row, ==_iff (row + 3) row, ==_iff (row + 7) row);
        subtotal =
            ground (arith, here, ==_iff (row + 1) row, ==_iff (row + 3) row, ==_iff (row + 7) row);
        total_label = ground (
          arith,
          there,
          ==_iff row (row + 3),
          ==_iff (row + 1) (row + 3),
          ==_iff (row + 7) (row + 3),
        );
        total = ground (
          arith,
          there,
          ==_iff row (row + 3),
          ==_iff (row + 1) (row + 3),
          ==_iff (row + 7) (row + 3),
        );
      }

  IsTotalAt-later :
      (xs ys : List (Call n)) (row : ℕ) (s : n.Num)
      → IsTotalAt ys row s
      → IsTotalAt (xs ++ ys) row s
  IsTotalAt-later xs ys row s at = record {
    subtotal_label = value_at-later 4 row xs ys _ at.subtotal_label;
    subtotal = value_at-later 5 row xs ys _ at.subtotal;
    total_label = value_at-later 4 (row + 3) xs ys _ at.total_label;
    total = value_at-later 5 (row + 3) xs ys _ at.total;
  }

  table-IsTotalAt :
      (dto : CartMailDto n)
      → IsTotalAt (table n dto) (18 + max (length dto.items) min_item_rows) (cart_total n dto.items)
  unfolding table cart_total
  table-IsTotalAt dto =
      let rows = item_rows n dto.items 0 n.nought 17 in
      let left = 7 - length dto.items in
      let row = rows.current_row + left + 1 in
      let end = item_rows-current_row dto.items 0 n.nought 17 in
      let same : row ≡ 18 + max (length dto.items) 7 = omega arith in
      subst (λ s. IsTotalAt (table n dto) (18 + max (length dto.items) 7) s)
        (item_rows-subtotal n dto.items 0 n.nought 17)
        (subst (λ r. IsTotalAt (table n dto) r rows.subtotal) same
          (IsTotalAt-later rows.calls _ row rows.subtotal (
            IsTotalAt-later (empty_rows n left (length dto.items) rows.current_row) _ row
              rows.subtotal (totals-IsTotalAt row rows.subtotal))))

  -- Behind at least seven rows of items and an empty one, the sheet names a subtotal, and three rows
  -- below a total, that are both the sum of the products of quantity and price of the cart.
  pub build_cart_workbook-IsTotalAt :
      (dto : CartMailDto n) (folio date : Text)
      → IsTotalAt
          (build_cart_workbook n dto folio date)
          (18 + max (length dto.items) min_item_rows)
          (cart_total n dto.items)
  unfolding build_cart_workbook
  build_cart_workbook-IsTotalAt dto folio date =
      let total = cart_total n dto.items in
      let row = 18 + max (length dto.items) 7 in
      IsTotalAt-later (Call.columns _ ∷ []) _ row total (
        IsTotalAt-later (cream_rows n _ 1) _ row total (
          IsTotalAt-later (header n) _ row total (
            IsTotalAt-later (contact n dto folio date) _ row total
              (IsTotalAt-later (table_headers n) _ row total (table-IsTotalAt dto)))))
