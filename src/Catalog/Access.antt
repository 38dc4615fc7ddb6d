-- ===== src/Catalog/Access.antt =====
-- Who can change the catalog.
use baja_valle_service.Prelude.{
  any, ◌≡◌, ◌⊎◌, refl, sym, ap, ◌∙◌, Bool, true, false, Option, none, some, [], ◌∷◌, inl, inr,
  arith, Bool-cases, Option-cases,
}
use baja_valle_service.Text.{Text}
use baja_valle_service.Prisma.{Role, role_eq}
use baja_valle_service.Exec.{ok, Result-cases}
use baja_valle_service.App.{App, AppLaws, State}
use baja_valle_service.Auth.{AuthUser}
use baja_valle_service.ParseId.{transform_int, transform_bigint}
use baja_valle_service.Guards.{bearer, can_activate, roles_can_activate}
use baja_valle_service.Guards.Laws.{IsIdentity, can_activate_sound, role_eq_iff}
use baja_valle_service.Sessions.{find_active}
use baja_valle_service.Catalog.{Catalog}
use baja_valle_service.Catalog.Products
use baja_valle_service.Catalog.Categories
use baja_valle_service.Catalog.Routes.{Request, is_public, roles, run, handle}

module _ (app : App) where
  -- The guard writes nothing to the database, whether it admits or throws.
  db-can_activate :
      (is_public ignore : Bool) (authorization : Option Text) (w : State app)
      → (can_activate app is_public ignore authorization w).1.db ≡ w.db
  unfolding can_activate find_active
  db-can_activate is_public ignore none w = ground arith
  db-can_activate is_public ignore (some []) w = ground arith
  db-can_activate is_public ignore (some (c ∷ s)) w = ground arith

  -- The request comes from an account that is an administrator now, with an open session.
  pub record IsAdmin (authorization : Option Text) (w : State app) : Type 0 where
    pub header : Text
    pub token : Text
    pub user : AuthUser
    pub given : authorization ≡ some header
    pub read : bearer header ≡ some token
    pub identity : IsIdentity app token w user
    pub admin : user.role ≡ Role.admin

module _ (app : App) (catalog : Catalog app.prisma.Db) where
  -- A public handler only reads.
  db-run_public :
      (req : Request catalog.Number) (w : State app)
      → is_public req ≡ true
      → (run app catalog req w).1.db ≡ w.db
  unfolding is_public run Products.find_all Products.find_one Categories.find_all
      Categories.find_one
  db-run_public Request.find_products w h = refl
  db-run_public (Request.find_product id) w h = elim (Result-cases (transform_bigint id)) [
    | inl (e, bad) ↦ ground arith
    | inr (n, good) ↦ elim (Option-cases (catalog.product w.db n)) [
      | inl gone ↦ ground arith
      | inr (p, there) ↦ ground arith
    ]
  ]
  db-run_public Request.find_categories w h = refl
  db-run_public (Request.find_category id) w h = elim (Result-cases (transform_int id)) [
    | inl (e, bad) ↦ ground arith
    | inr (n, good) ↦ elim (Option-cases (catalog.category w.db n)) [
      | inl gone ↦ ground arith
      | inr (p, there) ↦ ground arith
    ]
  ]
  db-run_public (Request.create_product dto) w h = cc
  db-run_public (Request.update_product id dto) w h = cc
  db-run_public (Request.remove_product id) w h = cc
  db-run_public (Request.create_category dto) w h = cc
  db-run_public (Request.update_category id dto) w h = cc
  db-run_public (Request.remove_category id) w h = cc

  roles-private :
      (req : Request catalog.Number) → (is_public req ≡ true) ⊎ (roles req ≡ some (Role.admin ∷ []))
  unfolding is_public roles
  roles-private Request.find_products = inl refl
  roles-private (Request.find_product id) = inl refl
  roles-private Request.find_categories = inl refl
  roles-private (Request.find_category id) = inl refl
  roles-private (Request.create_product dto) = inr refl
  roles-private (Request.update_product id dto) = inr refl
  roles-private (Request.remove_product id) = inr refl
  roles-private (Request.create_category dto) = inr refl
  roles-private (Request.update_category id dto) = inr refl
  roles-private (Request.remove_category id) = inr refl

-- A list with the one role of the administrators lets only them through.
admitted_admin :
    (user : Option AuthUser) (b : Bool)
    → roles_can_activate (some (Role.admin ∷ [])) user ≡ ok b
    → (a : AuthUser) × (user ≡ some a) × (a.role ≡ Role.admin)
unfolding roles_can_activate
admitted_admin none b e = cc
admitted_admin (some a) b e = elim (Bool-cases (any (role_eq a.role) (Role.admin ∷ []))) [
  | inl hit ↦ (a, refl, sym ((role_eq_iff a.role Role.admin).0 (ground arith)))
  | inr miss ↦ ground arith
]

module _ (app : App) (laws : AppLaws app) (catalog : Catalog app.prisma.Db) where
  -- A request to the catalog leaves the database as it is, unless its Bearer token is signed, with an
  -- open and unexpired session of an account that is an administrator now.
  pub db-handle :
      (authorization : Option Text) (req : Request catalog.Number) (w : State app)
      → ((handle app catalog authorization req w).1.db ≡ w.db) ⊎ IsAdmin app authorization w
  unfolding handle
  db-handle authorization req w =
      let guard = can_activate app (is_public req) false authorization in
      let same = db-can_activate app (is_public req) false authorization w in
      let v = (guard w).1 in
      elim (Result-cases (guard w).0) [
        | inl (f, bad) ↦ inl (ground arith)
        | inr (user, passed) ↦ elim (Result-cases (roles_can_activate (roles req) user)) [
          | inl (f, refused) ↦ inl (ground arith)
          | inr (b, allowed) ↦ elim (roles-private app catalog req) [
            | inl public ↦ inl (ground (arith, db-run_public app catalog req v public))
            | inr private ↦
                let (a, known, admin) =
                  admitted_admin user b
                    (ap (λ r. roles_can_activate r user) (sym private) ∙ allowed) in
                let (header, token, given, read, identity, _) =
                  can_activate_sound app laws (is_public req) false authorization w v a
                    (ground arith) in
                inr (record {
                  header = header;
                  token = token;
                  user = a;
                  given = given;
                  read = read;
                  identity = identity;
                  admin = admin;
                })
          ]
        ]
      ]
