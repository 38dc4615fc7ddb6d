-- ===== src/Mail/Workbook.antt =====
-- `buildCartWorkbook` of src/mail/mail.service.ts, as the calls and assignments that it makes on the
-- sheet of exceljs, in their order. A cell is a column, A being 1, and a row.
pub mod Values
pub mod Area
pub mod Frame
pub mod Items
pub mod Totals
use Prim.Native.Nat.{max}
use baja_valle_service.Prelude.{
  ℕ, zero, suc, ◌+◌, ◌-◌, ◌%◌, Bool, true, false, Option, none, some, List, [], ◌∷◌, ◌++◌, ◌==◌,
  if◌then◌else◌, length,
}
use baja_valle_service.Text.{Text, codes}
use baja_valle_service.Mail.Sheet.{
  Numbers, CartItemDto, CartMailDto, Fill, Border, CellValue, Call, currency_format, min_item_rows,
  century, century_bold, rockwell, right, center, middle, stripe,
}

module _ (n : Numbers) where
  cream_row : ℕ → List (Call n)
  cream_row r =
      Call.fill 1 r Fill.cream
      ∷ Call.fill 2 r Fill.cream
      ∷ Call.fill 3 r Fill.cream
      ∷ Call.fill 4 r Fill.cream
      ∷ Call.fill 5 r Fill.cream
      ∷ Call.fill 6 r Fill.cream
      ∷ []

  -- The rows from r on, as many as are left.
  cream_rows : ℕ → ℕ → List (Call n)
  cream_rows zero r = []
  cream_rows (suc left) r = cream_row r ++ cream_rows left (r + 1)

  header : List (Call n)
  header =
      Call.height 1 25
      ∷ Call.height 2 26
      ∷ Call.height 3 22
      ∷ Call.fill 2 1 Fill.dark
      ∷ Call.value 2 2 (CellValue.text (codes "BAJA VALLE"))
      ∷ Call.font 2 2 (century_bold (some 20))
      ∷ Call.fill 2 2 Fill.dark
      ∷ Call.alignment 2 2 (middle none)
      ∷ Call.value 2 3 (CellValue.text (codes "TODO PARA VIÑEDOS"))
      ∷ Call.font 2 3 (century 17)
      ∷ Call.fill 2 3 Fill.dark
      ∷ Call.alignment 2 3 (middle none)
      ∷ Call.value 5 2 (CellValue.text (codes "COTIZACIÓN"))
      ∷ Call.font 5 2 (rockwell true (some 25))
      ∷ Call.alignment 5 2 (middle (some (codes "right")))
      ∷ []

  -- A line of the address or of the data of the quotation.
  info : ℕ → ℕ → Text → List (Call n)
  info col row t =
      Call.value col row (CellValue.text t) ∷ Call.font col row (rockwell true (some 10)) ∷ []

  contact : CartMailDto n → Text → Text → List (Call n)
  contact dto folio date =
      info 2 5 (codes "AVE RUIZ 460 ZC")
      ++ (info 2 6 (codes "ENSENADA BC MEXICO")
          ++ (info 2 7 (codes "331-280-8522")
              ++ (Call.merge 4 5 5 5
                  ∷ Call.merge 4 6 5 6
                  ∷ Call.merge 4 7 5 7
                  ∷ (info 4 5 (codes "FECHA   " ++ date)
                      ++ (info 4 6 (codes "NUMERO   " ++ folio)
                          ++ info 4 7 (
                              codes "EMPRESA   "
                              ++ (dto.nombre ++ (codes " " ++ dto.apellido))))))))

  table_header : ℕ → Text → Text → List (Call n)
  table_header col label align =
      Call.value col 16 (CellValue.text label)
      ∷ Call.font col 16 (century_bold none)
      ∷ Call.fill col 16 Fill.dark
      ∷ Call.alignment col 16 (middle (some align))
      ∷ Call.border col 16 Border.grid
      ∷ []

  table_headers : List (Call n)
  table_headers =
      Call.height 16 20
      ∷ (table_header 2 (codes "DESCRIPCIÓN") (codes "left")
          ++ (table_header 3 (codes "CANTIDAD") (codes "center")
              ++ (table_header 4 (codes "PRECIO") (codes "center")
                  ++ table_header 5 (codes "TOTAL") (codes "right"))))

  -- The height, the fill and the border of a row of the table.
  table_row : ℕ → ℕ → List (Call n)
  table_row index row =
      Call.height row 18
      ∷ Call.fill 2 row (stripe index)
      ∷ Call.border 2 row Border.grid
      ∷ Call.fill 3 row (stripe index)
      ∷ Call.border 3 row Border.grid
      ∷ Call.fill 4 row (stripe index)
      ∷ Call.border 4 row Border.grid
      ∷ Call.fill 5 row (stripe index)
      ∷ Call.border 5 row Border.grid
      ∷ []

  abbrev pub row_total : CartItemDto n → n.Num
  row_total item = n.mul item.cantidad item.precio

  item_row : CartItemDto n → ℕ → List (Call n)
  item_row item row =
      Call.value 2 row (CellValue.text item.nombre)
      ∷ Call.font 2 row (rockwell false (some 10))
      ∷ Call.value 3 row (CellValue.number item.cantidad)
      ∷ Call.font 3 row (rockwell false (some 10))
      ∷ Call.alignment 3 row center
      ∷ Call.value 4 row (CellValue.number item.precio)
      ∷ Call.font 4 row (rockwell false (some 10))
      ∷ Call.num_fmt 4 row currency_format
      ∷ Call.alignment 4 row right
      ∷ Call.value 5 row (CellValue.number (row_total item))
      ∷ Call.font 5 row (rockwell false (some 10))
      ∷ Call.num_fmt 5 row currency_format
      ∷ Call.alignment 5 row right
      ∷ []

  -- The variables of the loop over the items, with the calls that it has made.
  pub record Progress : Type 0 where
    pub calls : List (Call n)
    pub subtotal : n.Num
    pub current_row : ℕ

  pub item_rows : List (CartItemDto n) → ℕ → n.Num → ℕ → Progress
  item_rows [] index subtotal row = record { calls = []; subtotal = subtotal; current_row = row }
  item_rows (item ∷ items) index subtotal row =
      let rest = item_rows items (index + 1) (n.add subtotal (row_total item)) (row + 1) in
      record rest { calls = table_row index row ++ (item_row item row ++ rest.calls) }

  -- The empty rows up to the least number, as many as are left.
  empty_rows : ℕ → ℕ → ℕ → List (Call n)
  empty_rows zero index row = []
  empty_rows (suc left) index row = table_row index row ++ empty_rows left (index + 1) (row + 1)

  -- The sums from a row on, and the footer.
  totals : ℕ → n.Num → List (Call n)
  totals row subtotal =
      Call.value 4 row (CellValue.text (codes "SUBTOTAL"))
      ∷ Call.font 4 row (rockwell true none)
      ∷ Call.alignment 4 row right
      ∷ Call.value 5 row (CellValue.number subtotal)
      ∷ Call.font 5 row (rockwell true none)
      ∷ Call.num_fmt 5 row currency_format
      ∷ Call.alignment 5 row right
      ∷ Call.border 5 row Border.underline
      ∷ Call.value 4 (row + 1) (CellValue.text (codes "IVA"))
      ∷ Call.font 4 (row + 1) (rockwell true none)
      ∷ Call.alignment 4 (row + 1) right
      ∷ Call.border 5 (row + 1) Border.underline
      ∷ Call.height (row + 3) 22
      ∷ Call.fill 4 (row + 3) Fill.dark
      ∷ Call.font 4 (row + 3) (century_bold none)
      ∷ Call.alignment 4 (row + 3) (middle (some (codes "right")))
      ∷ Call.fill 5 (row + 3) Fill.dark
      ∷ Call.font 5 (row + 3) (century_bold none)
      ∷ Call.alignment 5 (row + 3) (middle (some (codes "right")))
      ∷ Call.value 4 (row + 3) (CellValue.text (codes "TOTAL"))
      ∷ Call.value 5 (row + 3) (CellValue.number subtotal)
      ∷ Call.num_fmt 5 (row + 3) currency_format
      ∷ Call.merge 2 (row + 7) 5 (row + 7)
      ∷ Call.value 2 (row + 7) (CellValue.text (codes "GRACIAS POR HACER NEGOCIO CON NOSOTROS!"))
      ∷ Call.font 2 (row + 7) (rockwell true (some 10))
      ∷ Call.alignment 2 (row + 7) center
      ∷ []

  abbrev pub fill_rows : CartMailDto n → ℕ
  fill_rows dto = 17 + max (length dto.items) min_item_rows + 12

  -- The rows of the table, and the sums one row below.
  table : CartMailDto n → List (Call n)
  table dto =
      let count : ℕ = length dto.items in
      let items = item_rows dto.items 0 n.nought 17 in
      let left : ℕ = min_item_rows - count in
      items.calls
      ++ (empty_rows left count items.current_row
          ++ totals (items.current_row + left + 1) items.subtotal)

  unfoldable pub build_cart_workbook : CartMailDto n → Text → Text → List (Call n)
  unfolding cream_rows cream_row header contact info table_headers table_header table item_rows
      table_row item_row empty_rows totals
  build_cart_workbook dto folio date =
      Call.columns (3 ∷ 36 ∷ 12 ∷ 14 ∷ 14 ∷ 3 ∷ [])
      ∷ (cream_rows (fill_rows dto) 1
          ++ (header ++ (contact dto folio date ++ (table_headers ++ table dto))))
