-- ===== src/Catalog/Routes.antt =====
-- src/products/products.controller.ts and src/category/category.controller.ts: a request passes the
-- guard of the access token and the guard of the roles, then the pipes parse its id, and the handler
-- runs.
use baja_valle_service.Prelude.{Bool, true, false, Option, none, some, List, [], ◌∷◌}
use baja_valle_service.Text.{Text}
use baja_valle_service.Prisma.{Role}
use baja_valle_service.Exec.{◌>>=◌, ◌>>◌, pure, lift}
use baja_valle_service.App.{App, Action}
use baja_valle_service.ParseId.{transform_int, transform_bigint}
use baja_valle_service.Guards.{can_activate, roles_can_activate}
use baja_valle_service.Catalog.{
  Product, Category, CreateProductDto, UpdateProductDto, CreateCategoryDto, UpdateCategoryDto,
  Catalog,
}
use baja_valle_service.Catalog.Products
use baja_valle_service.Catalog.Categories

-- The handlers, with the text of the id and the body.
pub data Request (Number : Type 0) : Type 0 where
  find_products : Request Number
  find_product : Text → Request Number
  create_product : CreateProductDto Number → Request Number
  update_product : Text → UpdateProductDto Number → Request Number
  remove_product : Text → Request Number
  find_categories : Request Number
  find_category : Text → Request Number
  create_category : CreateCategoryDto → Request Number
  update_category : Text → UpdateCategoryDto → Request Number
  remove_category : Text → Request Number

pub data Response (Price : Type 0) : Type 0 where
  summaries : List (Products.Summary Price) → Response Price
  product : Product Price → Category → Response Price
  removed_product : Product Price → Response Price
  categories : List (Category × List (Product Price)) → Response Price
  category_with_products : Category → List (Product Price) → Response Price
  category : Category → Response Price

module _ {Number : Type 0} where
  -- @Public()
  unfoldable pub is_public : Request Number → Bool
  is_public Request.find_products = true
  is_public (Request.find_product _) = true
  is_public Request.find_categories = true
  is_public (Request.find_category _) = true
  is_public _ = false

  -- @Roles(…)
  unfoldable pub roles : Request Number → Option (List Role)
  roles Request.find_products = none
  roles (Request.find_product _) = none
  roles Request.find_categories = none
  roles (Request.find_category _) = none
  roles _ = some (Role.admin ∷ [])

module _ (app : App) (catalog : Catalog app.prisma.Db) where
  unfoldable pub run : Request catalog.Number → Action app (Response catalog.Price)
  run Request.find_products = do found ← Products.find_all catalog; pure (Response.summaries found)
  run (Request.find_product id) = do
    id ← lift (transform_bigint id)
    (p, c) ← Products.find_one catalog id
    pure (Response.product p c)
  run (Request.create_product dto) = do
    (p, c) ← Products.create catalog dto
    pure (Response.product p c)
  run (Request.update_product id dto) = do
    id ← lift (transform_bigint id)
    (p, c) ← Products.update catalog id dto
    pure (Response.product p c)
  run (Request.remove_product id) = do
    id ← lift (transform_bigint id)
    p ← Products.remove catalog id
    pure (Response.removed_product p)
  run Request.find_categories = do
    found ← Categories.find_all catalog
    pure (Response.categories found)
  run (Request.find_category id) = do
    id ← lift (transform_int id)
    (c, products) ← Categories.find_one catalog id
    pure (Response.category_with_products c products)
  run (Request.create_category dto) = do
    c ← Categories.create catalog dto
    pure (Response.category c)
  run (Request.update_category id dto) = do
    id ← lift (transform_int id)
    c ← Categories.update catalog id dto
    pure (Response.category c)
  run (Request.remove_category id) = do
    id ← lift (transform_int id)
    c ← Categories.remove catalog id
    pure (Response.category c)

  unfoldable pub handle : Option Text → Request catalog.Number → Action app (Response catalog.Price)
  handle authorization req = do
    user ← can_activate app (is_public req) false authorization
    lift (roles_can_activate (roles req) user)
    run req
