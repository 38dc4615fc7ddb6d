-- ===== src/Mail/Sheet.antt =====
-- What a workbook is made from, and the calls on its sheet (src/mail/mail.service.ts and src/mail/dto/cart-mail.dto.ts).
use baja_valle_service.Prelude.{
  ℕ, ◌%◌, Bool, true, false, Option, none, some, List, ◌==◌, if◌then◌else◌,
}
use baja_valle_service.Text.{Text, codes}

-- The numbers of JavaScript, as far as the code computes with them.
pub record Numbers : Type 1 where
  pub Num : Type 0
  pub nought : Num
  pub add : Num → Num → Num
  pub mul : Num → Num → Num

pub record CartItemDto (n : Numbers) : Type 0 where
  pub nombre : Text
  pub cantidad : n.Num
  pub precio : n.Num

pub record CartMailDto (n : Numbers) : Type 0 where
  pub nombre : Text
  pub apellido : Text
  pub correo : Text
  pub ubicacion : Text
  pub items : List (CartItemDto n)

pub data Fill : Type 0 where
  cream dark white : Fill

abbrev pub argb : Fill → Text
argb Fill.cream = codes "FFF5EDD8"
argb Fill.dark = codes "FF3F3F3F"
argb Fill.white = codes "FFFFFFFF"

-- BORDER, and the line under a sum
pub data Border : Type 0 where
  grid underline : Border

pub record Font : Type 0 where
  pub name : Text
  pub bold : Bool
  pub size : Option ℕ
  pub color : Option Text

pub record Alignment : Type 0 where
  pub horizontal : Option Text
  pub vertical : Option Text

pub data CellValue (n : Numbers) : Type 0 where
  text : Text → CellValue n
  number : n.Num → CellValue n

pub data Call (n : Numbers) : Type 0 where
  columns : List ℕ → Call n
  height : ℕ → ℕ → Call n
  fill : ℕ → ℕ → Fill → Call n
  value : ℕ → ℕ → CellValue n → Call n
  font : ℕ → ℕ → Font → Call n
  alignment : ℕ → ℕ → Alignment → Call n
  num_fmt : ℕ → ℕ → Text → Call n
  border : ℕ → ℕ → Border → Call n
  merge : ℕ → ℕ → ℕ → ℕ → Call n

abbrev pub currency_format : Text
currency_format = codes "\"$\"#,##0.00"

abbrev pub min_item_rows : ℕ
min_item_rows = 7

abbrev pub century : ℕ → Font
century size = record {
  name = codes "Century Gothic";
  bold = false;
  size = some size;
  color = some (codes "FFFFFFFF");
}

-- { name: 'Century Gothic', bold: true, color: white }
abbrev pub century_bold : Option ℕ → Font
century_bold size = record (century 0) { bold = true; size = size }

abbrev pub rockwell : Bool → Option ℕ → Font
rockwell bold size = record { name = codes "Rockwell"; bold = bold; size = size; color = none }

abbrev pub right : Alignment
right = record { horizontal = some (codes "right"); vertical = none }

abbrev pub center : Alignment
center = record { horizontal = some (codes "center"); vertical = none }

abbrev pub middle : Option Text → Alignment
middle horizontal = record { horizontal = horizontal; vertical = some (codes "middle") }

-- index % 2 === 0 ? WHITE : CREAM
abbrev pub stripe : ℕ → Fill
stripe i = if i % 2 == 0 then Fill.white else Fill.cream
