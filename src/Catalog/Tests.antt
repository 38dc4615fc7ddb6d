-- ===== src/Catalog/Tests.antt =====
-- Runs of the theorems, on a catalog of at most one product.
use baja_valle_service.Prelude.{ℕ, ◌≡◌, ◌⊎◌, Option, none, some, [], ◌==◌, if◌then◌else◌}
use baja_valle_service.Text.{codes}
use baja_valle_service.Exec.{PrismaCode, Failure, ok, err}
use baja_valle_service.Catalog.{Product, Category, CreateProductDto, ProductData, Catalog}
use baja_valle_service.Catalog.Routes.{Request, handle}
use baja_valle_service.Catalog.Access.{IsAdmin, db-handle}
use baja_valle_service.Sample.{app, laws, start, one_session}

abbrev wines : Category
wines = record { id = 1; name = codes "Vinos"; color = none; icon_url = none }

-- The row of a new product.
abbrev new_product : ProductData ℕ → ℕ → Product ℕ
new_product d id = record {
  id = id;
  name = d.name;
  description = d.description;
  features = d.features;
  specifications = some d.specifications;
  price = d.price;
  image_url = d.image_url;
  category_id = d.category_id;
}

-- The calls of a catalog that sees one product in the state, and the creation of one.
abbrev one_product : {Db : Type 0} → (Db → Option (Product ℕ)) → (Product ℕ → Db → Db) → Catalog Db
one_product see put = record {
  Number = ℕ;
  Price = ℕ;
  products = λ db. [];
  product =
      λ db i. elim (see db) [ none ↦ none | some p ↦ if p.id == i then some (p, wines) else none ];
  product_create = λ d db. (ok (new_product d 5, wines), put (new_product d 5) db);
  product_update = λ i dto db. (err (Failure.prisma PrismaCode.other), db);
  product_delete = λ i db. (err (Failure.prisma PrismaCode.other), db);
  categories = λ db. [];
  category = λ db i. none;
  category_create = λ dto db. (ok wines, db);
  category_update = λ i dto db. (ok wines, db);
  category_delete = λ i db. (ok wines, db);
}

abbrev bottle : CreateProductDto ℕ
bottle = record {
  name = codes "Nebbiolo";
  description = codes "Tinto";
  features = [];
  specifications = codes "750 ml";
  price = 450;
  image_url = some (codes "https://example.com/n.png");
  category_id = 1;
}

-- A catalog whose creation of a product empties the database of the sample application.
abbrev hostile : Catalog app.prisma.Db
hostile = one_product (λ db. none) (λ p db. start.db)

db-handle_example :
    ((handle app hostile
        (some (codes "Bearer x.0.y"))
        (Request.create_product bottle)
        one_session).1.db
      ≡ one_session.db)
    ⊎ IsAdmin app (some (codes "Bearer x.0.y")) one_session
db-handle_example =
    db-handle app laws hostile (some (codes "Bearer x.0.y")) (Request.create_product bottle)
      one_session
