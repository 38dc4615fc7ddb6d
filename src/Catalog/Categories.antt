-- ===== src/Catalog/Categories.antt =====
-- src/category/category.service.ts
use baja_valle_service.Prelude.{ℕ, List, ◌++◌}
use baja_valle_service.Text.{codes}
use baja_valle_service.Text.Decimal.{to_string}
use baja_valle_service.Exec.{HttpException, Failure, Exec, ◌>>=◌, ◌>>◌}
use baja_valle_service.World.{World, query, call, or_throw}
use baja_valle_service.Catalog.{Product, Category, CreateCategoryDto, UpdateCategoryDto, Catalog}

abbrev pub missing : ℕ → Failure
missing id = Failure.http (
    HttpException.not_found (codes "Categoría con id " ++ (to_string id ++ codes " no encontrada")))

module _ {Db : Type 0} (catalog : Catalog Db) where
  unfoldable pub find_all : Exec (World Db) (List (Category × List (Product catalog.Price)))
  find_all = query catalog.categories

  unfoldable pub find_one : ℕ → Exec (World Db) (Category × List (Product catalog.Price))
  find_one id = do category ← query (λ db. catalog.category db id); or_throw category (missing id)

  -- The `data` has the two properties of the DTO.
  unfoldable pub create : CreateCategoryDto → Exec (World Db) Category
  create dto = call (catalog.category_create (record { name = dto.name; color = dto.color }))

  unfoldable pub update : ℕ → UpdateCategoryDto → Exec (World Db) Category
  unfolding find_one
  update id dto = do find_one id; call (catalog.category_update id dto)

  unfoldable pub remove : ℕ → Exec (World Db) Category
  unfolding find_one
  remove id = do find_one id; call (catalog.category_delete id)
