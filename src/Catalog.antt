-- ===== src/Catalog.antt =====
-- The catalog: its rows in prisma/schema.prisma, the DTOs of src/products/dto and src/category/dto, and
-- the calls of the generated client that both services make, as an interface.
pub mod Products
pub mod Categories
pub mod Routes
pub mod Access
pub mod Tests
use baja_valle_service.Prelude.{ℕ, ◌≡◌, Option, none, some, List}
use baja_valle_service.Text.{Text}
use baja_valle_service.Exec.{ok, Exec}

-- The columns; `Price` stands for Decimal(12, 2).
pub record Product (Price : Type 0) : Type 0 where
  pub id : ℕ
  pub name : Text
  pub description : Text
  pub features : List Text
  pub specifications : Option Text
  pub price : Price
  pub image_url : Option Text
  pub category_id : ℕ

pub record Category : Type 0 where
  pub id : ℕ
  pub name : Text
  pub color : Option Text
  pub icon_url : Option Text

pub record CreateProductDto (Number : Type 0) : Type 0 where
  pub name : Text
  pub description : Text
  pub features : List Text
  pub specifications : Text
  pub price : Number
  pub image_url : Option Text
  pub category_id : ℕ

-- A property that a body may leave out, and that `IsOptional` lets be null.
pub data Field {ℓ} (A : Type ℓ) : Type ℓ where
  undefined null : Field A
  given : A → Field A

pub record UpdateProductDto (Number : Type 0) : Type 0 where
  pub name : Field Text
  pub description : Field Text
  pub features : Field (List Text)
  pub specifications : Field Text
  pub price : Field Number
  pub image_url : Field Text
  pub category_id : Field ℕ

pub record CreateCategoryDto : Type 0 where
  pub name : Text
  pub color : Option Text

pub record UpdateCategoryDto : Type 0 where
  pub name : Field Text
  pub color : Field Text

-- The `data` of product.create; what is undefined is `none`, and becomes null.
pub record ProductData (Number : Type 0) : Type 0 where
  pub name : Text
  pub description : Text
  pub features : List Text
  pub specifications : Text
  pub price : Number
  pub image_url : Option Text
  pub category_id : ℕ

-- The calls, with what they include. `Number` stands for the numbers of JavaScript, which the client
-- rounds to `Price`, that is Decimal(12, 2).
pub record Catalog (Db : Type 0) : Type 1 where
  pub Number : Type 0
  pub Price : Type 0
  pub products : Db → List (Product Price)
  pub product : Db → ℕ → Option (Product Price × Category)
  pub product_create : ProductData Number → Exec Db (Product Price × Category)
  pub product_update : ℕ → UpdateProductDto Number → Exec Db (Product Price × Category)
  pub product_delete : ℕ → Exec Db (Product Price)
  pub categories : Db → List (Category × List (Product Price))
  pub category : Db → ℕ → Option (Category × List (Product Price))
  pub category_create : CreateCategoryDto → Exec Db Category
  pub category_update : ℕ → UpdateCategoryDto → Exec Db Category
  pub category_delete : ℕ → Exec Db Category
