-- ===== src/Catalog/Products.antt =====
-- src/products/products.service.ts
use mathlib.Core.List.{map}
use baja_valle_service.Prelude.{ℕ, Option, none, List, ◌++◌}
use baja_valle_service.Text.{Text, codes}
use baja_valle_service.Text.Decimal.{to_string}
use baja_valle_service.Exec.{HttpException, Failure, Exec, ◌>>=◌, ◌>>◌}
use baja_valle_service.World.{World, query, call, or_throw}
use baja_valle_service.Catalog.{
  Product, Category, CreateProductDto, UpdateProductDto, ProductData, Catalog,
}

-- The columns that `findAll` selects.
pub record Summary (Price : Type 0) : Type 0 where
  pub id : ℕ
  pub name : Text
  pub price : Price
  pub image_url : Option Text
  pub category_id : ℕ

abbrev pub summary : {Price : Type 0} → Product Price → Summary Price
summary p = record {
  id = p.id;
  name = p.name;
  price = p.price;
  image_url = p.image_url;
  category_id = p.category_id;
}

abbrev pub missing : ℕ → Failure
missing id =
    Failure.http (
      HttpException.not_found
        (codes "Producto con id " ++ (to_string id ++ codes " no encontrado")))

-- The `data` of `create`, which leaves out `imageUrl`.
abbrev pub product_data : {Number : Type 0} → CreateProductDto Number → ProductData Number
product_data dto = record {
  name = dto.name;
  description = dto.description;
  features = dto.features;
  specifications = dto.specifications;
  price = dto.price;
  image_url = none;
  category_id = dto.category_id;
}

module _ {Db : Type 0} (catalog : Catalog Db) where
  unfoldable pub find_all : Exec (World Db) (List (Summary catalog.Price))
  find_all = query (λ db. map summary (catalog.products db))

  unfoldable pub find_one : ℕ → Exec (World Db) (Product catalog.Price × Category)
  find_one id = do product ← query (λ db. catalog.product db id); or_throw product (missing id)

  unfoldable pub create :
      CreateProductDto catalog.Number → Exec (World Db) (Product catalog.Price × Category)
  create dto = call (catalog.product_create (product_data dto))

  unfoldable pub update :
      ℕ → UpdateProductDto catalog.Number → Exec (World Db) (Product catalog.Price × Category)
  unfolding find_one
  update id dto = do find_one id; call (catalog.product_update id dto)

  unfoldable pub remove : ℕ → Exec (World Db) (Product catalog.Price)
  unfolding find_one
  remove id = do find_one id; call (catalog.product_delete id)
