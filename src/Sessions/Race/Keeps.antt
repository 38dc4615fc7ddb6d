-- ===== src/Sessions/Race/Keeps.antt =====
-- What a step does to the sessions of other calls.
use mathlib.Core.Path.{subst}
use baja_valle_service.Prelude.{
  ℕ, ◌+◌, ◌-◌, ltb, ◌≡◌, ◌≢◌, ◌⊎◌, refl, ap, ◌∙◌, Bool, true, false, Option, none, some, inl, inr,
  arith, leb, ◌==◌, ==_iff, if◌then◌else◌, Bool-cases,
}
use baja_valle_service.Text.{Text}
use baja_valle_service.Prisma.{User, Session, SessionData}
use baja_valle_service.Exec.{Result-cases}
use baja_valle_service.App.{App, AppLaws, State}
use baja_valle_service.Sessions.{
  is_open, reissue, refuse_used, create, revoke_family, is_open_in, revoked_at?, reuse_grace_ms,
}
use baja_valle_service.Sessions.Rotation.{created}
use baja_valle_service.Sessions.Race.{Pc, step_found, step, Keeps}

-- What holds of the branch that is taken holds of the choice.
pub if_both {ℓ} :
    {A : Type ℓ} (P : A → Type 0) (b : Bool) (x y : A)
    → (b ≡ true → P x)
    → (b ≡ false → P y)
    → P (if b then x else y)
if_both P true x y h k = h refl
if_both P false x y h k = k refl

module _ (app : App) where
  -- The session at an id has this hash of a token, and here it is revoked.
  abbrev pub Held : app.prisma.Db → Text → ℕ → Type 0
  Held db hash id = (s : Session) × (app.prisma.session db id ≡ some s) × (s.token_hash ≡ hash)

  abbrev pub Spent : app.prisma.Db → Text → ℕ → Type 0
  Spent db hash id =
      (s : Session) × (app.prisma.session db id ≡ some s)
      × (s.token_hash ≡ hash)
      × (s.revoked_at ≢ none)

  pub Held-Keeps :
      (db db' : app.prisma.Db) (hash : Text) (id : ℕ)
      → Keeps app db db'
      → Held db hash id
      → Held db' hash id
  unfolding Keeps
  Held-Keeps db db' hash id keep (s, e, h) = let (s', e', h', _) = keep id s e in (s', e', h' ∙ h)

  pub Spent-Keeps :
      (db db' : app.prisma.Db) (hash : Text) (id : ℕ)
      → Keeps app db db'
      → Spent db hash id
      → Spent db' hash id
  unfolding Keeps
  Spent-Keeps db db' hash id keep (s, e, h, n) =
      let (s', e', h', n') = keep id s e in (s', e', h' ∙ h, n' n)

  pub Keeps-refl : (db : app.prisma.Db) → Keeps app db db
  unfolding Keeps
  Keeps-refl db i s e = (s, e, refl, λ n. n)

module _ (app : App) (laws : AppLaws app) where
  open laws use {prisma_laws}

  -- A call that revokes keeps the sessions.
  pub Keeps-revoke_many :
      (test : Session → Bool) (t : ℕ) (db : app.prisma.Db)
      → Keeps app db (app.prisma.session_revoke_many test t db).1
  unfolding Keeps
  Keeps-revoke_many test t db i s e = elim (Bool-cases (test s)) [
    | inl hit ↦ (
      record s { revoked_at = some t },
      ground (arith, prisma_laws.session_revoke test t db i),
      refl,
      λ n k. cc,
    )
    | inr miss ↦ (s, ground (arith, prisma_laws.session_revoke test t db i), refl, λ n. n)
  ]

  pub Keeps-session_create :
      (d : SessionData) (db : app.prisma.Db) → Keeps app db (app.prisma.session_create d db).1
  unfolding Keeps
  Keeps-session_create d db i s e = elim (Result-cases (app.prisma.session_create d db).0) [
    | inl (x, bad) ↦
        let same =
          prisma_laws.session_create_err d db (app.prisma.session_create d db).1 x (ground arith) in
        (s, ap (λ db. app.prisma.session db i) same ∙ e, refl, λ n. n)
    | inr (r, good) ↦
        let (_, fresh, sessions, _) =
          prisma_laws.session_create_ok d db (app.prisma.session_create d db).1 r (ground arith) in
        elim (Bool-cases (r.id == i)) [
          | inl same ↦
              let at : app.prisma.session db r.id ≡ some s =
                ap (app.prisma.session db) ((==_iff r.id i).0 same) ∙ e in
              cc
          | inr other ↦ (s, ground (arith, sessions i), refl, λ n. n)
        ]
  ]

  pub Keeps-reissue :
      (s : Session) (u : User) (user_agent : Option Text) (w : State app)
      → Keeps app w.db (reissue app s u user_agent w).1.db
  unfolding reissue create
  Keeps-reissue s u user_agent w =
      let new = created app s.user_id user_agent s.family_id w in
      let same : (app.prisma.session_create new w.db).1 ≡ (reissue app s u user_agent w).1.db =
        ground arith in
      subst (Keeps app w.db) same (Keeps-session_create new w.db)

  db-refuse_used :
      (s : Session) (used : Option ℕ) (old : Option Session) (w : State app)
      → revoked_at? old ≡ used
      → (w.db ≡ (refuse_used app s old w).1.db)
        ⊎ ((t : ℕ) × ((app.prisma.session_revoke_many (is_open_in s.family_id) t w.db).1
              ≡ (refuse_used app s old w).1.db))
  unfolding refuse_used revoke_family
  db-refuse_used s none old w e = inr (app.node.clock w.ticks, ground arith)
  db-refuse_used s (some t) old w e =
      elim (Bool-cases (ltb (app.node.clock w.ticks - t) reuse_grace_ms)) [
        | inl recent ↦ inl (ground arith)
        | inr late ↦ inr (app.node.clock (w.ticks + 1), ground arith)
      ]

  Keeps-refuse_used :
      (s : Session) (used : Option Session) (w : State app)
      → Keeps app w.db (refuse_used app s used w).1.db
  Keeps-refuse_used s used w = elim (db-refuse_used s (revoked_at? used) used w refl) [
    | inl same ↦ subst (Keeps app w.db) same (Keeps-refl app w.db)
    | inr (t, same) ↦
        subst (Keeps app w.db) same (Keeps-revoke_many (is_open_in s.family_id) t w.db)
  ]

  -- Every step keeps the sessions.
  pub Keeps-step : (p : Pc) (w : State app) → Keeps app w.db (step app p w).1.db
  unfolding step step_found
  Keeps-step (Pc.asked token user_agent) w = Keeps-refl app w.db
  Keeps-step (Pc.found none user_agent) w = Keeps-refl app w.db
  Keeps-step (Pc.found (some (s, u)) user_agent) w =
      if_both (λ (q : Pc × State app). Keeps app w.db q.1.db)
        (leb s.expires_at (app.node.clock w.ticks)) _ _ (λ e. Keeps-refl app w.db)
        (λ e. Keeps-revoke_many (is_open s.id) (app.node.clock (w.ticks + 1)) w.db)
  Keeps-step (Pc.claimed count s u user_agent) w =
      if_both (λ (q : Pc × State app). Keeps app w.db q.1.db) (count == 1) _ _
        (λ e. Keeps-reissue s u user_agent w) (λ e. Keeps-refl app w.db)
  Keeps-step (Pc.checked s used) w = Keeps-refuse_used s used w
  Keeps-step (Pc.answered id r) w = Keeps-refl app w.db
