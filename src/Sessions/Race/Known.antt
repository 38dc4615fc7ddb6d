-- ===== src/Sessions/Race/Known.antt =====
-- What a call knows of the session that it has found or claimed.
use mathlib.Core.Path.{subst}
use baja_valle_service.Prelude.{
  ℕ, ◌+◌, ◌≡◌, ◌⊎◌, refl, sym, ap, ◌∙◌, true, Option, none, some, inl, inr, arith, leb, ◌==◌,
  ==_iff, if◌then◌else◌, Bool-cases, Option-cases, some_inj,
}
use baja_valle_service.Text.{Text, text_eq}
use baja_valle_service.Text.Laws.{text_eq_iff}
use baja_valle_service.Prisma.{User, Session}
use baja_valle_service.App.{App, AppLaws, State}
use baja_valle_service.Sessions.{is_open, hash_token}
use baja_valle_service.Sessions.Race.{Pc, claims, step_found, step, Keeps}
use baja_valle_service.Sessions.Race.Keeps.{
  if_both, Held, Spent, Held-Keeps, Spent-Keeps, Keeps-reissue,
}

module _ (app : App) (laws : AppLaws app) where
  open laws use {prisma_laws}

  -- What is known of the session of a call, by the token that it was asked with.
  unfoldable pub IsKnown : app.prisma.Db → Text → Pc → Type 0
  IsKnown db token (Pc.asked t _) = t ≡ token
  IsKnown db token (Pc.found none _) = Unit
  IsKnown db token (Pc.found (some (s, _)) _) = Held app db (hash_token app token) s.id
  IsKnown db token (Pc.claimed count s _ _) = count ≡ 1 → Spent app db (hash_token app token) s.id
  IsKnown db token (Pc.checked _ _) = Unit
  IsKnown db token (Pc.answered none _) = Unit
  IsKnown db token (Pc.answered (some id) _) = Spent app db (hash_token app token) id

  pub IsKnown-Keeps :
      (db db' : app.prisma.Db) (token : Text) (p : Pc)
      → Keeps app db db'
      → IsKnown db token p
      → IsKnown db' token p
  unfolding IsKnown
  IsKnown-Keeps db db' token (Pc.asked t _) keep k = k
  IsKnown-Keeps db db' token (Pc.found none _) keep k = tt
  IsKnown-Keeps db db' token (Pc.found (some (s, u)) _) keep k = Held-Keeps app db db' _ s.id keep k
  IsKnown-Keeps db db' token (Pc.claimed count s _ _) keep k =
      λ one. Spent-Keeps app db db' _ s.id keep (k one)
  IsKnown-Keeps db db' token (Pc.checked _ _) keep k = tt
  IsKnown-Keeps db db' token (Pc.answered none _) keep k = tt
  IsKnown-Keeps db db' token (Pc.answered (some id) _) keep k = Spent-Keeps app db db' _ id keep k

  is_open_inv : (id : ℕ) (s : Session) → is_open id s ≡ true → s.revoked_at ≡ none
  is_open_inv id s h = elim (Option-cases s.revoked_at) [
    | inl nil ↦ nil
    | inr (t, there) ↦ ground arith
  ]

  -- A claim that counts one session has found it open, and leaves it revoked.
  claim_one :
      (db : app.prisma.Db) (hash : Text) (id t : ℕ)
      → Held app db hash id
      → (app.prisma.session_revoke_many (is_open id) t db).0 ≡ 1
      → Spent app (app.prisma.session_revoke_many (is_open id) t db).1 hash id
        × ((other : Text) → Spent app db other id → ⊥)
  claim_one db hash id t (s, e, h) one =
      let count =
        prisma_laws.count_revoke (is_open id) t db id (λ r k. ground (arith, ==_iff r.id id)) in
      let after = prisma_laws.session_revoke (is_open id) t db id in
      elim (Bool-cases (is_open id s)) [
        | inl hit ↦ (
          (record s { revoked_at = some t }, ground arith, h, λ k. cc),
          λ other (r, e', _, n).
              n (ap (λ (x : Session). x.revoked_at) (some_inj (sym e' ∙ e)) ∙ is_open_inv id s hit),
        )
        | inr miss ↦ ground arith
      ]

  -- A session that is found by a token has the hash of it.
  IsKnown-session_find :
      (t : Text) (user_agent : Option Text) (token : Text) (w : State app)
      → t ≡ token
      → (row : Option (Session × User))
      → app.prisma.session_find (λ s. text_eq s.token_hash (hash_token app t)) w.db ≡ row
      → IsKnown w.db token (Pc.found row user_agent)
  unfolding IsKnown
  IsKnown-session_find t user_agent token w k none e = tt
  IsKnown-session_find t user_agent token w k (some (s, u)) e =
      let (there, hit, _) = prisma_laws.session_find_some _ w.db s u e in
      (s, there, (text_eq_iff s.token_hash (hash_token app t)).0 hit ∙ ap (hash_token app) k)

  IsKnown-step_found :
      (row : Option (Session × User)) (user_agent : Option Text) (token : Text) (w : State app)
      → IsKnown w.db token (Pc.found row user_agent)
      → IsKnown (step_found app row user_agent w).1.db token (step_found app row user_agent w).0
  unfolding IsKnown step_found
  IsKnown-step_found none user_agent token w k = tt
  IsKnown-step_found (some (s, u)) user_agent token w k =
      if_both (λ (q : Pc × State app). IsKnown q.1.db token q.0)
        (leb s.expires_at (app.node.clock w.ticks)) _ _ (λ e. tt)
        (λ e one.
          (claim_one w.db (hash_token app token) s.id (app.node.clock (w.ticks + 1)) k one).0)

  pub IsKnown-step :
      (p : Pc) (token : Text) (w : State app)
      → IsKnown w.db token p
      → IsKnown (step app p w).1.db token (step app p w).0
  unfolding IsKnown step
  IsKnown-step (Pc.asked t user_agent) token w k =
      IsKnown-session_find t user_agent token w k
        (app.prisma.session_find (λ s. text_eq s.token_hash (hash_token app t)) w.db) refl
  IsKnown-step (Pc.found row user_agent) token w k = IsKnown-step_found row user_agent token w k
  IsKnown-step (Pc.claimed count s u user_agent) token w k =
      if_both (λ (q : Pc × State app). IsKnown q.1.db token q.0) (count == 1) _ _
        (λ won.
          Spent-Keeps app w.db _ _ s.id (Keeps-reissue app laws s u user_agent w)
            (k ((==_iff count 1).0 won)))
        (λ lost. tt)
  IsKnown-step (Pc.checked s used) token w k = tt
  IsKnown-step (Pc.answered none r) token w k = tt
  IsKnown-step (Pc.answered (some id) r) token w k = k

  -- A step that claims a session has found it open.
  pub claims-step :
      (p : Pc) (w : State app) (token : Text) (id : ℕ)
      → IsKnown w.db token p
      → claims (step app p w).0 ≡ some id
      → (claims p ≡ some id) ⊎ ((other : Text) → Spent app w.db other id → ⊥)
  unfolding claims step step_found IsKnown
  claims-step (Pc.asked t user_agent) w token id k e = cc
  claims-step (Pc.found none user_agent) w token id k e = cc
  claims-step (Pc.found (some (s, u)) user_agent) w token id k e =
      elim (Bool-cases (leb s.expires_at (app.node.clock w.ticks))) [
        | inl over ↦ ground arith
        | inr on ↦
            let t = app.node.clock (w.ticks + 1) in
            let count = (app.prisma.session_revoke_many (is_open s.id) t w.db).0 in
            let inner : (if count == 1 then some s.id else none) ≡ some id = ground arith in
            let same : s.id ≡ id = ground arith in
            let one : count ≡ 1 = ground (arith, ==_iff count 1) in
            let (_, unspent) = claim_one w.db (hash_token app token) s.id t k one in
            inr (subst (λ i. (other : Text) → Spent app w.db other i → ⊥) same unspent)
      ]
  claims-step (Pc.claimed count s u user_agent) w token id k e = inl (ground arith)
  claims-step (Pc.checked s used) w token id k e = cc
  claims-step (Pc.answered o r) w token id k e = inl e

  pub IsKnown-claims :
      (db : app.prisma.Db) (token : Text) (p : Pc) (id : ℕ)
      → IsKnown db token p
      → claims p ≡ some id
      → Spent app db (hash_token app token) id
  unfolding IsKnown claims
  IsKnown-claims db token (Pc.asked t user_agent) id k e = cc
  IsKnown-claims db token (Pc.found none user_agent) id k e = cc
  IsKnown-claims db token (Pc.found (some (s, u)) user_agent) id k e = cc
  IsKnown-claims db token (Pc.claimed count s u user_agent) id k e =
      let one : count ≡ 1 = ground (arith, ==_iff count 1) in
      let same : s.id ≡ id = ground arith in
      subst (Spent app db (hash_token app token)) same (k one)
  IsKnown-claims db token (Pc.checked s used) id k e = cc
  IsKnown-claims db token (Pc.answered none r) id k e = cc
  IsKnown-claims db token (Pc.answered (some n) r) id k e =
      subst (Spent app db (hash_token app token)) (some_inj e) k
