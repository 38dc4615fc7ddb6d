-- ===== src/Mail/Workbook/Items.antt =====
-- The rows of the items on the sheet.
use mathlib.Core.Path.{subst}
use baja_valle_service.Prelude.{
  ℕ, zero, suc, ◌+◌, ◌-◌, ◌<◌, ◌≡◌, refl, sym, ap, ◌∙◌, length-append, none, some, List, [], ◌∷◌,
  ◌++◌, arith, ==_iff, length,
}
use baja_valle_service.Text.{Text}
use baja_valle_service.Mail.Workbook.{
  table_row, item_row, item_rows, empty_rows, totals, table, row_total, build_cart_workbook,
  cream_rows, header, contact, table_headers,
}
use baja_valle_service.Mail.Sheet.{Numbers, CartItemDto, CartMailDto, CellValue, Call}
use baja_valle_service.Mail.Workbook.Values.{assigned, value_at, value_at-later, value_at-earlier}

module _ {n : Numbers} where
  -- The four cells of an item in a row.
  pub record IsItemAt (calls : List (Call n)) (row : ℕ) (item : CartItemDto n) : Type 0 where
    pub name : value_at 2 row calls ≡ some (CellValue.text item.nombre)
    pub quantity : value_at 3 row calls ≡ some (CellValue.number item.cantidad)
    pub price : value_at 4 row calls ≡ some (CellValue.number item.precio)
    pub total : value_at 5 row calls ≡ some (CellValue.number (n.mul item.cantidad item.precio))

  IsItemAt-later :
      (xs ys : List (Call n)) (row : ℕ) (item : CartItemDto n)
      → IsItemAt ys row item
      → IsItemAt (xs ++ ys) row item
  IsItemAt-later xs ys row item at = record {
    name = value_at-later 2 row xs ys _ at.name;
    quantity = value_at-later 3 row xs ys _ at.quantity;
    price = value_at-later 4 row xs ys _ at.price;
    total = value_at-later 5 row xs ys _ at.total;
  }

  IsItemAt-earlier :
      (xs ys : List (Call n)) (row : ℕ) (item : CartItemDto n)
      → ((col : ℕ) → value_at col row ys ≡ none)
      → IsItemAt xs row item
      → IsItemAt (xs ++ ys) row item
  IsItemAt-earlier xs ys row item off at = record {
    name = ground (arith, value_at-earlier 2 row xs ys (off 2), at.name);
    quantity = ground (arith, value_at-earlier 3 row xs ys (off 3), at.quantity);
    price = ground (arith, value_at-earlier 4 row xs ys (off 4), at.price);
    total = ground (arith, value_at-earlier 5 row xs ys (off 5), at.total);
  }

  item_row-IsItemAt : (item : CartItemDto n) (row : ℕ) → IsItemAt (item_row n item row) row item
  unfolding item_row value_at assigned
  item_row-IsItemAt item row = record {
    name = ground (arith, ==_iff row row);
    quantity = ground (arith, ==_iff row row);
    price = ground (arith, ==_iff row row);
    total = ground (arith, ==_iff row row);
  }

module _ {n : Numbers} (col t : ℕ) where
  item_row-off :
      (item : CartItemDto n) (row : ℕ) → t < row → value_at col t (item_row n item row) ≡ none
  unfolding item_row value_at assigned
  item_row-off item row h = ground (arith, ==_iff row t)

  table_row-off : (i row : ℕ) → value_at col t (table_row n i row) ≡ none
  unfolding table_row value_at assigned
  table_row-off i row = refl

  item_rows-off :
      (items : List (CartItemDto n)) (i : ℕ) (s : n.Num) (row : ℕ)
      → t < row
      → value_at col t (item_rows n items i s row).calls ≡ none
  unfolding item_rows value_at
  item_rows-off [] i s row h = refl
  item_rows-off (item ∷ items) i s row h =
      let rest = item_rows n items (i + 1) (n.add s (row_total n item)) (row + 1) in
      let later =
        item_rows-off items (i + 1) (n.add s (row_total n item)) (row + 1) (omega arith) in
      ground (
        arith,
        value_at-earlier col t (table_row n i row) (item_row n item row ++ rest.calls),
        value_at-earlier col t (item_row n item row) rest.calls,
        item_row-off item row,
        table_row-off i row,
        later,
      )

  empty_rows-off : (left i row : ℕ) → value_at col t (empty_rows n left i row) ≡ none
  unfolding empty_rows value_at
  empty_rows-off zero i row = refl
  empty_rows-off (suc left) i row = ground (
    arith,
    value_at-earlier col t (table_row n i row) (empty_rows n left (i + 1) (row + 1)),
    table_row-off i row,
    empty_rows-off left (i + 1) (row + 1),
  )

  totals-off :
      (row : ℕ) (subtotal : n.Num) → t < row → value_at col t (totals n row subtotal) ≡ none
  unfolding totals value_at assigned
  totals-off row subtotal h =
      ground (arith, ==_iff row t, ==_iff (row + 1) t, ==_iff (row + 3) t, ==_iff (row + 7) t)

module _ {n : Numbers} where
  -- The row behind the items.
  pub item_rows-current_row :
      (items : List (CartItemDto n)) (i : ℕ) (s : n.Num) (row : ℕ)
      → (item_rows n items i s row).current_row ≡ row + length items
  unfolding item_rows
  item_rows-current_row [] i s row = omega arith
  item_rows-current_row (item ∷ items) i s row =
      let rest = item_rows-current_row items (i + 1) (n.add s (row_total n item)) (row + 1) in
      ground arith

  item_rows-IsItemAt :
      (before after : List (CartItemDto n)) (item : CartItemDto n) (i : ℕ) (s : n.Num) (row t : ℕ)
      → t ≡ row + length before
      → IsItemAt (item_rows n (before ++ item ∷ after) i s row).calls t item
  unfolding item_rows
  item_rows-IsItemAt [] after item i s row t e =
      let same : row ≡ t = omega arith in
      let rest = item_rows n after (i + 1) (n.add s (row_total n item)) (row + 1) in
      IsItemAt-later (table_row n i row) (item_row n item row ++ rest.calls) t item (
        IsItemAt-earlier (item_row n item row) rest.calls t item
          (λ col.
            item_rows-off col t after (i + 1) (n.add s (row_total n item)) (row + 1) (omega arith))
          (subst (λ x. IsItemAt (item_row n item row) x item) same (item_row-IsItemAt item row)))
  item_rows-IsItemAt (x ∷ before) after item i s row t e =
      let rest = item_rows n (before ++ item ∷ after) (i + 1) (n.add s (row_total n x)) (row + 1) in
      IsItemAt-later (table_row n i row) (item_row n x row ++ rest.calls) t item (
        IsItemAt-later (item_row n x row) rest.calls t item (
          item_rows-IsItemAt before after item (i + 1) (n.add s (row_total n x)) (row + 1) t
            (omega arith)))

  table-IsItemAt :
      (dto : CartMailDto n) (before after : List (CartItemDto n)) (item : CartItemDto n)
      → dto.items ≡ before ++ item ∷ after
      → IsItemAt (table n dto) (17 + length before) item
  unfolding table
  table-IsItemAt dto before after item e =
      let t = 17 + length before in
      let rows = item_rows n dto.items 0 n.nought 17 in
      let end = item_rows-current_row dto.items 0 n.nought 17 in
      let size = ap length e ∙ length-append before (item ∷ after) in
      let left = 7 - length dto.items in
      IsItemAt-earlier rows.calls _ t item
        (λ col.
          value_at-earlier col t (empty_rows n left (length dto.items) rows.current_row)
            (totals n (rows.current_row + left + 1) rows.subtotal)
            (totals-off col t (rows.current_row + left + 1) rows.subtotal (omega arith))
          ∙ empty_rows-off col t left (length dto.items) rows.current_row)
        (subst (λ items. IsItemAt (item_rows n items 0 n.nought 17).calls t item) (sym e)
          (item_rows-IsItemAt before after item 0 n.nought 17 t refl))

  -- Each item of a cart has its row on the sheet, from row 17 on in the order of the cart, with its
  -- name, its quantity, its price and their product in the columns B to E.
  pub build_cart_workbook-IsItemAt :
      (dto : CartMailDto n) (folio date : Text) (before after : List (CartItemDto n))
      (item : CartItemDto n)
      → dto.items ≡ before ++ item ∷ after
      → IsItemAt (build_cart_workbook n dto folio date) (17 + length before) item
  unfolding build_cart_workbook
  build_cart_workbook-IsItemAt dto folio date before after item e =
      IsItemAt-later (Call.columns _ ∷ []) _ _ item (
        IsItemAt-later (cream_rows n _ 1) _ _ item (
          IsItemAt-later (header n) _ _ item (
            IsItemAt-later (contact n dto folio date) _ _ item (
              IsItemAt-later (table_headers n) _ _ item (table-IsItemAt dto before after item e)))))
