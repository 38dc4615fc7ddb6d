-- ===== src/Guards/Laws.antt =====
-- Whom the guards let through.
use baja_valle_service.Prelude.{
  ◌+◌, ◌<◌, ◌≡◌, ◌≢◌, ◌↔◌, ◌⊎◌, refl, sym, ap, ◌∙◌, Bool, true, ◌&&◌, Option, none, some, List, [],
  ◌∷◌, inl, inr, arith, ◌==◌, ==_iff, Bool-cases, Option-cases, some_inj, any,
}
use baja_valle_service.Text.{Text}
use baja_valle_service.Prisma.{Role, role_eq, User, Session}
use baja_valle_service.Exec.{ok, err}
use baja_valle_service.App.{App, AppLaws, State, AccessTokenPayload}
use baja_valle_service.Sessions.{find_active, is_active}
use baja_valle_service.Auth.{AuthUser}
use baja_valle_service.Guards.{bearer, can_activate, roles_can_activate, forbidden}

-- The identity that the guard puts into a request: the one of a signed token whose session is open,
-- not expired at a later reading of the clock, and the user's, with the role that the user has now.
pub record IsIdentity (app : App) (token : Text) (w : State app) (a : AuthUser) : Type 0 where
  pub payload : AccessTokenPayload
  pub signed : app.jwt.verify (app.node.clock w.ticks) token ≡ some payload
  pub id : a.id ≡ payload.sub
  pub session_id : a.session_id ≡ payload.sid
  pub session : Session
  pub row : app.prisma.session w.db payload.sid ≡ some session
  pub usable : session.revoked_at ≡ none
  pub fresh : app.node.clock (w.ticks + 1) < session.expires_at
  pub mine : session.user_id ≡ payload.sub
  pub user : User
  pub account : app.prisma.user w.db payload.sub ≡ some user
  pub role : a.role ≡ user.role

module _ (app : App) (laws : AppLaws app) where
  open laws use {prisma_laws}

  -- If the guard sets a user in the request, then the request has a Bearer header whose token is
  -- signed, the session of the token is open, not expired and of that user, and the role is the one
  -- that the account has now; nothing is written.
  pub can_activate_sound :
      (is_public ignore : Bool) (authorization : Option Text) (w w' : State app) (a : AuthUser)
      → can_activate app is_public ignore authorization w ≡ (ok (some a), w')
      → (header token : Text) × (authorization ≡ some header)
        × (bearer header ≡ some token)
        × IsIdentity app token w a
        × (w'.db ≡ w.db)
  unfolding can_activate find_active
  can_activate_sound is_public ignore none w w' a e = ground arith
  can_activate_sound is_public ignore (some []) w w' a e = ground arith
  can_activate_sound is_public ignore (some (c ∷ s)) w w' a e =
      elim (Bool-cases (is_public && ignore)) [
        | inl skipped ↦ ground arith
        | inr asked ↦ elim (Option-cases (bearer (c ∷ s))) [
          | inl malformed ↦ ground arith
          | inr (token, good) ↦
              elim (Option-cases (app.jwt.verify (app.node.clock w.ticks) token)) [
                | inl forged ↦ ground arith
                | inr (payload, signed) ↦
                    let test : Session → Bool =
                      is_active payload.sid (app.node.clock (w.ticks + 1)) in
                    elim (Option-cases (app.prisma.session_find test w.db)) [
                      | inl missed ↦ ground arith
                      | inr ((x, u), found) ↦
                          let (there, hit, owner) =
                            prisma_laws.session_find_some test w.db x u found in
                          let key : x.id ≡ payload.sid = ground arith in
                          elim (Bool-cases (x.user_id == payload.sub)) [
                            | inl mine ↦
                                let same = (==_iff x.user_id payload.sub).0 mine in
                                (
                                  c ∷ s,
                                  token,
                                  refl,
                                  good,
                                  record {
                                    payload = payload;
                                    signed = signed;
                                    id = ground arith;
                                    session_id = ground arith;
                                    session = x;
                                    row = ap (app.prisma.session w.db) (sym key) ∙ there;
                                    usable = ground arith;
                                    fresh = ground arith;
                                    mine = same;
                                    user = u;
                                    account = ap (app.prisma.user w.db) (sym same) ∙ owner;
                                    role = ground arith;
                                  },
                                  ground arith,
                                )
                            | inr another ↦ ground arith
                          ]
                    ]
              ]
        ]
      ]

  -- A request is let through without a user only on a public route, and there only if the route
  -- ignores access tokens or the Authorization header is missing or empty: a bad token never becomes a
  -- guest.
  pub can_activate_guest :
      (is_public ignore : Bool) (authorization : Option Text) (w : State app)
      → (can_activate app is_public ignore authorization w).0 ≡ ok none
      → (is_public ≡ true)
        × ((ignore ≡ true) ⊎ ((authorization ≡ none) ⊎ (authorization ≡ some [])))
  unfolding can_activate find_active
  can_activate_guest is_public ignore none w e = ground arith
  can_activate_guest is_public ignore (some []) w e = ground arith
  can_activate_guest is_public ignore (some (c ∷ s)) w e = elim (Bool-cases (is_public && ignore)) [
    | inl skipped ↦ ground arith
    | inr asked ↦ elim (Option-cases (bearer (c ∷ s))) [
      | inl malformed ↦ ground arith
      | inr (token, good) ↦ elim (Option-cases (app.jwt.verify (app.node.clock w.ticks) token)) [
        | inl forged ↦ ground arith
        | inr (payload, signed) ↦
            let test : Session → Bool = is_active payload.sid (app.node.clock (w.ticks + 1)) in
            elim (Option-cases (app.prisma.session_find test w.db)) [
              | inl missed ↦ ground arith
              | inr ((x, u), found) ↦ elim (Bool-cases (x.user_id == payload.sub)) [
                | inl mine ↦ ground arith
                | inr another ↦ ground arith
              ]
            ]
      ]
    ]
  ]

abbrev pub IsOneOf : Role → List Role → Type 0
IsOneOf r [] = ⊥
IsOneOf r (x ∷ roles) = (x ≡ r) ⊎ IsOneOf r roles

pub role_eq_iff : (r x : Role) → (role_eq r x ≡ true) ↔ (x ≡ r)
role_eq_iff Role.admin Role.admin = (λ e. refl, λ e. refl)
role_eq_iff Role.admin Role.client = (λ e. cc, λ e. cc)
role_eq_iff Role.client Role.admin = (λ e. cc, λ e. cc)
role_eq_iff Role.client Role.client = (λ e. refl, λ e. refl)

any_role_iff : (r : Role) (roles : List Role) → (any (role_eq r) roles ≡ true) ↔ IsOneOf r roles
any_role_iff r [] = (λ e. cc, λ h. elim h [ ])
any_role_iff r (x ∷ roles) = elim (Bool-cases (role_eq r x)) [
  | inl hit ↦ (λ e. inl ((role_eq_iff r x).0 hit), λ h. ground arith)
  | inr miss ↦ (
    λ e. inr ((any_role_iff r roles).0 (ground arith)),
    λ h. elim h [
      | inl same ↦ cc (miss, (role_eq_iff r x).1 same)
      | inr later ↦ ground (arith, (any_role_iff r roles).1 later)
    ],
  )
]

-- A route with roles lets exactly the authenticated users with one of them through, and refuses
-- every other request with 403.
pub roles_can_activate_iff :
    (r : Role) (roles : List Role) (user : Option AuthUser)
    → ((roles_can_activate (some (r ∷ roles)) user ≡ ok true)
        ↔ ((a : AuthUser) × (user ≡ some a) × IsOneOf a.role (r ∷ roles)))
      × ((roles_can_activate (some (r ∷ roles)) user ≢ ok true)
          → roles_can_activate (some (r ∷ roles)) user ≡ err forbidden)
unfolding roles_can_activate
roles_can_activate_iff r roles none = ((λ e. cc, λ (a, e, h). cc), λ h. refl)
roles_can_activate_iff r roles (some a) = elim (Bool-cases (any (role_eq a.role) (r ∷ roles))) [
  | inl hit ↦ (
    (λ e. (a, refl, (any_role_iff a.role (r ∷ roles)).0 hit), λ h. rw hit refl),
    λ h. ground arith,
  )
  | inr miss ↦ (
    (
      λ e. ground arith,
      λ (b, same, h).
          let hit : any (role_eq a.role) (r ∷ roles) ≡ true =
            ap (λ (x : AuthUser). any (role_eq x.role) (r ∷ roles)) (some_inj same)
            ∙ (any_role_iff b.role (r ∷ roles)).1 h in
          absurd (cc (miss, hit)),
    ),
    λ h. rw miss refl,
  )
]
