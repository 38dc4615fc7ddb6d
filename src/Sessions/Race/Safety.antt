-- ===== src/Sessions/Race/Safety.antt =====
-- However calls of `rotate` are interleaved, a refresh token is spent once.
use mathlib.Core.Path.{subst}
use baja_valle_service.Prelude.{
  ℕ, ◌≡◌, refl, sym, ap, ◌∙◌, Option, some, inl, inr, arith, ◌==◌, ==_iff, Bool-cases,
}
use baja_valle_service.Text.{Text}
use baja_valle_service.App.{App, AppLaws, State}
use baja_valle_service.Sessions.{hash_token}
use baja_valle_service.Sessions.Race.{claims, step, System, update, Step, Reach}
use baja_valle_service.Sessions.Race.Keeps.{if_both, Keeps-step}
use baja_valle_service.Sessions.Race.Known.{
  IsKnown, IsKnown-Keeps, IsKnown-step, claims-step, IsKnown-claims,
}

module _ (app : App) (laws : AppLaws app) where
  open laws use {prisma_laws}

  record IsSafe (tokens : ℕ → Text) (sys : System app) : Type 0 where
    known : (i : ℕ) → IsKnown app laws sys.world.db (tokens i) (sys.pc i)
    apart : (i j id : ℕ) → claims (sys.pc i) ≡ some id → claims (sys.pc j) ≡ some id → i ≡ j

  IsKnown-run :
      (tokens : ℕ → Text) (sys : System app) (i : ℕ)
      → IsSafe tokens sys
      → (j : ℕ)
      → IsKnown app laws
          (step app (sys.pc i) sys.world).1.db
          (tokens j)
          (update sys.pc i (step app (sys.pc i) sys.world).0 j)
  IsKnown-run tokens sys i safe j =
      if_both (IsKnown app laws (step app (sys.pc i) sys.world).1.db (tokens j)) (i == j) _ _
        (λ same.
          subst
            (λ n.
              IsKnown app laws (step app (sys.pc i) sys.world).1.db (tokens n)
                (step app (sys.pc i) sys.world).0)
            ((==_iff i j).0 same)
            (IsKnown-step app laws (sys.pc i) (tokens i) sys.world (safe.known i)))
        (λ other.
          IsKnown-Keeps app laws sys.world.db _ (tokens j) (sys.pc j)
            (Keeps-step app laws (sys.pc i) sys.world) (safe.known j))

  -- What the call that runs claims, no other has claimed.
  unclaimed :
      (tokens : ℕ → Text) (sys : System app) (i j id : ℕ)
      → IsSafe tokens sys
      → claims (step app (sys.pc i) sys.world).0 ≡ some id
      → claims (sys.pc j) ≡ some id
      → i ≡ j
  unclaimed tokens sys i j id safe e k =
      elim (claims-step app laws (sys.pc i) sys.world (tokens i) id (safe.known i) e) [
        | inl before ↦ safe.apart i j id before k
        | inr unspent ↦ absurd (
            unspent (hash_token app (tokens j))
              (IsKnown-claims app laws sys.world.db (tokens j) (sys.pc j) id (safe.known j) k))
      ]

  apart-run :
      (tokens : ℕ → Text) (sys : System app) (i : ℕ)
      → IsSafe tokens sys
      → (j k id : ℕ) → claims (update sys.pc i (step app (sys.pc i) sys.world).0 j) ≡ some id
      → claims (update sys.pc i (step app (sys.pc i) sys.world).0 k) ≡ some id
      → j ≡ k
  apart-run tokens sys i safe j k id e f = elim (Bool-cases (i == j)) [
    | inl here ↦ elim (Bool-cases (i == k)) [
      | inl too ↦ sym ((==_iff i j).0 here) ∙ (==_iff i k).0 too
      | inr other ↦
          let won : claims (step app (sys.pc i) sys.world).0 ≡ some id = ground arith in
          let had : claims (sys.pc k) ≡ some id = ground arith in
          sym ((==_iff i j).0 here) ∙ unclaimed tokens sys i k id safe won had
    ]
    | inr there ↦ elim (Bool-cases (i == k)) [
      | inl here ↦
          let won : claims (step app (sys.pc i) sys.world).0 ≡ some id = ground arith in
          let had : claims (sys.pc j) ≡ some id = ground arith in
          sym (unclaimed tokens sys i j id safe won had) ∙ (==_iff i k).0 here
      | inr other ↦ safe.apart j k id (ground arith) (ground arith)
    ]
  ]

  IsSafe-step :
      (tokens : ℕ → Text) (sys sys' : System app)
      → IsSafe tokens sys
      → Step app sys sys'
      → IsSafe tokens sys'
  IsSafe-step tokens sys _ safe (Step.run i) = record {
    known = IsKnown-run tokens sys i safe;
    apart = apart-run tokens sys i safe;
  }
  IsSafe-step tokens sys _ safe (Step.other w keep) = record {
    known = λ i. IsKnown-Keeps app laws sys.world.db w.db (tokens i) (sys.pc i) keep (safe.known i);
    apart = safe.apart;
  }

  IsSafe-reach :
      (tokens : ℕ → Text) (agents : ℕ → Option Text) (w : State app) (sys : System app)
      → Reach app tokens agents w sys
      → IsSafe tokens sys
  unfolding IsKnown claims
  IsSafe-reach tokens agents w _ Reach.start = record {
    known = λ i. refl;
    apart = λ i j id e f. cc;
  }
  IsSafe-reach tokens agents w sys' (Reach.later {sys = sys} reach step) =
      IsSafe-step tokens sys sys' (IsSafe-reach tokens agents w sys reach) step

  -- However the steps of any number of rotations are interleaved, with each other and with methods
  -- that delete no session and reopen none, of the calls with one refresh token at most one has
  -- claimed a session.
  pub one_claim :
      (tokens : ℕ → Text) (agents : ℕ → Option Text) (w : State app) (sys : System app)
      → Reach app tokens agents w sys
      → (i j id id' : ℕ) → tokens i ≡ tokens j
      → claims (sys.pc i) ≡ some id
      → claims (sys.pc j) ≡ some id'
      → i ≡ j
  one_claim tokens agents w sys reach i j id id' same e f =
      let safe = IsSafe-reach tokens agents w sys reach in
      let (s, there, hash, _) =
        IsKnown-claims app laws sys.world.db (tokens i) (sys.pc i) id (safe.known i) e in
      let (s', there', hash', _) =
        IsKnown-claims app laws sys.world.db (tokens j) (sys.pc j) id' (safe.known j) f in
      let equal = hash ∙ ap (hash_token app) same ∙ sym hash' in
      let ids = prisma_laws.token_unique sys.world.db id id' s s' there there' equal in
      safe.apart i j id e (f ∙ ap some (sym ids))
