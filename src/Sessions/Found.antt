-- ===== src/Sessions/Found.antt =====
-- The session that a refresh token finds.
use baja_valle_service.Prelude.{
  some_inj, ℕ, ◌≡◌, refl, sym, ap, ◌∙◌, Bool, Option, none, some, inl, inr, arith, Option-cases,
}
use baja_valle_service.Text.{Text, text_eq}
use baja_valle_service.Text.Laws.{text_eq_iff}
use baja_valle_service.Prisma.{User, Session}
use baja_valle_service.Prisma.Laws.{revoke_if}
use baja_valle_service.App.{App, AppLaws, State}
use baja_valle_service.Sessions.{hash_token}

-- The session that a refresh token belongs to.
pub record Holds (app : App) (token : Text) (s : Session) (w : State app) : Type 0 where
  pub row : app.prisma.session w.db s.id ≡ some s
  pub hash : s.token_hash ≡ hash_token app token

pub revoke_if-inv :
    (test : Session → Bool) (t : ℕ) (r : Session) (o : Option Session)
    → revoke_if test t o ≡ some r
    → (old : Session) × (o ≡ some old) × (old.token_hash ≡ r.token_hash)
revoke_if-inv test t r none e = cc
revoke_if-inv test t r (some old) e = (old, refl, ground arith)

module _ (app : App) (laws : AppLaws app) where
  open laws use {prisma_laws}

  abbrev pub by_token : Text → Session → Bool
  by_token token s = text_eq s.token_hash (hash_token app token)

  -- The search by token finds the session that the token belongs to, and its user.
  pub session_find-eq :
      (token : Text) (s : Session) (w : State app)
      → Holds app token s w
      → (u : User) × (app.prisma.session_find (by_token token) w.db ≡ some (s, u))
        × (app.prisma.user w.db s.user_id ≡ some u)
  session_find-eq token s w h =
      elim (Option-cases (app.prisma.session_find (by_token token) w.db)) [
        | inl missed ↦ absurd (
            cc (
              prisma_laws.session_find_none (by_token token) w.db missed s.id s h.row,
              (text_eq_iff _ _).1 h.hash,
            ))
        | inr ((r, u), found) ↦
            let (there, hit, owner) =
              prisma_laws.session_find_some (by_token token) w.db r u found in
            let same_hash : r.token_hash ≡ s.token_hash = (text_eq_iff _ _).0 hit ∙ sym h.hash in
            let same : r ≡ s = some_inj (
              sym there
              ∙ ap (app.prisma.session w.db)
                  (prisma_laws.token_unique w.db r.id s.id r s there h.row same_hash)
              ∙ h.row) in
            (u, rw (← same) found, rw (← same) owner)
      ]
