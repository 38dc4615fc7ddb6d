-- ===== src/Mail/Workbook/Area.antt =====
-- The part of the sheet that is written.
use baja_valle_service.Prelude.{
  ℕ, zero, suc, ◌+◌, ◌-◌, ◌≤◌, ◌≡◌, refl, List, [], ◌∷◌, ◌++◌, arith, length, All, All-append,
}
use baja_valle_service.Text.{Text}
use baja_valle_service.Mail.Workbook.{
  cream_row, cream_rows, header, info, contact, table_header, table_headers, table_row, item_row,
  item_rows, empty_rows, totals, table, row_total, fill_rows, build_cart_workbook,
}
use baja_valle_service.Mail.Sheet.{Numbers, CartItemDto, CartMailDto, Call}
use baja_valle_service.Mail.Workbook.Items.{item_rows-current_row}

-- A cell of the columns A to F, in one of the rows from the first to the last.
abbrev pub IsCell : ℕ → ℕ → ℕ → Type 0
IsCell last col row = (1 ≤ col) × (col ≤ 6) × (1 ≤ row) × (row ≤ last)

module _ {n : Numbers} where
  -- A call that touches such cells only.
  abbrev pub IsInside : ℕ → Call n → Type 0
  IsInside last (Call.columns widths) = length widths ≡ 6
  IsInside last (Call.height row _) = (1 ≤ row) × (row ≤ last)
  IsInside last (Call.fill col row _) = IsCell last col row
  IsInside last (Call.value col row _) = IsCell last col row
  IsInside last (Call.font col row _) = IsCell last col row
  IsInside last (Call.alignment col row _) = IsCell last col row
  IsInside last (Call.num_fmt col row _) = IsCell last col row
  IsInside last (Call.border col row _) = IsCell last col row
  IsInside last (Call.merge col row col' row') =
      IsCell last col row × IsCell last col' row' × (col ≤ col') × (row ≤ row')

module _ (n : Numbers) (last : ℕ) where
  cream_row-IsInside : (r : ℕ) → 1 ≤ r → r ≤ last → All (IsInside last) (cream_row n r)
  unfolding cream_row
  cream_row-IsInside r h k = ground arith

  cream_rows-IsInside :
      (left r : ℕ) → 1 ≤ r → r + left ≤ last + 1 → All (IsInside last) (cream_rows n left r)
  unfolding cream_rows
  cream_rows-IsInside zero r h k = tt
  cream_rows-IsInside (suc left) r h k =
      All-append (IsInside last) (cream_row n r) (cream_rows n left (r + 1))
        (cream_row-IsInside r h (omega arith))
        (cream_rows-IsInside left (r + 1) (omega arith) (omega arith))

  header-IsInside : 3 ≤ last → All (IsInside last) (header n)
  unfolding header
  header-IsInside h = ground arith

  contact-IsInside :
      (dto : CartMailDto n) (folio date : Text)
      → 7 ≤ last
      → All (IsInside last) (contact n dto folio date)
  unfolding contact info
  contact-IsInside dto folio date h = ground arith

  table_headers-IsInside : 16 ≤ last → All (IsInside last) (table_headers n)
  unfolding table_headers table_header
  table_headers-IsInside h = ground arith

  table_row-IsInside : (i row : ℕ) → 1 ≤ row → row ≤ last → All (IsInside last) (table_row n i row)
  unfolding table_row
  table_row-IsInside i row h k = ground arith

  item_row-IsInside :
      (item : CartItemDto n) (row : ℕ)
      → 1 ≤ row
      → row ≤ last
      → All (IsInside last) (item_row n item row)
  unfolding item_row
  item_row-IsInside item row h k = ground arith

  item_rows-IsInside :
      (items : List (CartItemDto n)) (i : ℕ) (s : n.Num) (row : ℕ)
      → 1 ≤ row
      → row + length items ≤ last + 1
      → All (IsInside last) (item_rows n items i s row).calls
  unfolding item_rows
  item_rows-IsInside [] i s row h k = tt
  item_rows-IsInside (item ∷ items) i s row h k =
      All-append (IsInside last) (table_row n i row) _ (table_row-IsInside i row h (omega arith)) (
        All-append (IsInside last) (item_row n item row) _
          (item_row-IsInside item row h (omega arith))
          (item_rows-IsInside items (i + 1) (n.add s (row_total n item)) (row + 1) (omega arith)
            (omega arith)))

  empty_rows-IsInside :
      (left i row : ℕ)
      → 1 ≤ row
      → row + left ≤ last + 1
      → All (IsInside last) (empty_rows n left i row)
  unfolding empty_rows
  empty_rows-IsInside zero i row h k = tt
  empty_rows-IsInside (suc left) i row h k =
      All-append (IsInside last) (table_row n i row) _ (table_row-IsInside i row h (omega arith))
        (empty_rows-IsInside left (i + 1) (row + 1) (omega arith) (omega arith))

  totals-IsInside :
      (row : ℕ) (s : n.Num) → 1 ≤ row → row + 7 ≤ last → All (IsInside last) (totals n row s)
  unfolding totals
  totals-IsInside row s h k = ground arith

  table-IsInside :
      (dto : CartMailDto n) → fill_rows n dto ≤ last → All (IsInside last) (table n dto)
  unfolding table
  table-IsInside dto h =
      let rows = item_rows n dto.items 0 n.nought 17 in
      let left = 7 - length dto.items in
      let end = item_rows-current_row dto.items 0 n.nought 17 in
      All-append (IsInside last) rows.calls _
        (item_rows-IsInside dto.items 0 n.nought 17 (omega arith) (omega arith))
        (All-append (IsInside last) (empty_rows n left (length dto.items) rows.current_row) _
          (empty_rows-IsInside left (length dto.items) rows.current_row (omega arith) (omega arith))
          (totals-IsInside (rows.current_row + left + 1) rows.subtotal (omega arith) (omega arith)))

module _ {n : Numbers} where
  -- However many items a cart has, nothing is written outside the first `fill_rows` rows and the six
  -- columns.
  pub build_cart_workbook-IsInside :
      (dto : CartMailDto n) (folio date : Text)
      → All (IsInside (fill_rows n dto)) (build_cart_workbook n dto folio date)
  unfolding build_cart_workbook
  build_cart_workbook-IsInside dto folio date =
      let last = fill_rows n dto in
      let headers = table_headers n ++ table n dto in
      let contacts = contact n dto folio date ++ headers in
      (
        refl,
        All-append (IsInside last) (cream_rows n last 1) (header n ++ contacts)
            (cream_rows-IsInside n last last 1 (omega arith) (omega arith))
            (All-append (IsInside last) (header n) contacts (header-IsInside n last (omega arith)) (
              All-append (IsInside last) (contact n dto folio date) headers
                (contact-IsInside n last dto folio date (omega arith))
                (All-append (IsInside last) (table_headers n) (table n dto)
                  (table_headers-IsInside n last (omega arith))
                  (table-IsInside n last dto (omega arith))))),
      )
