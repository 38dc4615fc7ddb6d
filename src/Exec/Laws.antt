-- ===== src/Exec/Laws.antt =====
-- Inversion of actions that returned, and their rules of computation.
use baja_valle_service.Prelude.{◌≡◌, refl, ap}
use baja_valle_service.World.{World, call}
use baja_valle_service.Exec.{Failure, Result, ok, err, Exec, continue, ◌>>=◌, handle, catch}

module _ {S A B : Type 0} (f : A → Exec S B) (s' : S) (b : B) where
  continue-eq-ok :
      (r : Result A) (t : S)
      → continue r f t ≡ (ok b, s')
      → (a : A) × (r ≡ ok a) × (f a t ≡ (ok b, s'))
  continue-eq-ok (ok a) t e = (a, refl, e)
  continue-eq-ok (err x) t e = cc

  -- A block that returned: its first action returned, and so did the rest from there.
  pub >>=-eq-ok :
      (m : Exec S A) (s : S)
      → (m >>= f) s ≡ (ok b, s')
      → (a : A) × (t : S) × (m s ≡ (ok a, t)) × (f a t ≡ (ok b, s'))
  >>=-eq-ok m s e =
      let (a, first, rest) = continue-eq-ok (m s).0 (m s).1 e in
      (a, (m s).1, λ i. (first i, (m s).1), rest)

module _ {S A B : Type 0} (m : Exec S A) (f : A → Exec S B) {s t : S} where
  pub >>=-ok : {a : A} → m s ≡ (ok a, t) → (m >>= f) s ≡ f a t
  >>=-ok e = ap (λ (p : Result A × S). continue p.0 f p.1) e

  pub >>=-err : {x : Failure} → m s ≡ (err x, t) → (m >>= f) s ≡ (err x, t)
  >>=-err e = ap (λ (p : Result A × S). continue p.0 f p.1) e

module _ {S A : Type 0} (handler : Failure → Exec S A) (s' : S) (a : A) where
  handle-eq-ok :
      (never : (x : Failure) (t : S) → handler x t ≡ (ok a, s') → ⊥) (r : Result A) (t : S)
      → handle r handler t ≡ (ok a, s')
      → ◌≡◌ {A = Result A × S} (r, t) (ok a, s')
  handle-eq-ok never (ok c) t e = e
  handle-eq-ok never (err x) t e = absurd (never x t e)

  -- A `try` with a handler that never returns has returned only what its body returned.
  pub catch-eq-ok :
      (never : (x : Failure) (t : S) → handler x t ≡ (ok a, s') → ⊥) (m : Exec S A) (s : S)
      → catch m handler s ≡ (ok a, s')
      → m s ≡ (ok a, s')
  catch-eq-ok never m s e = handle-eq-ok never (m s).0 (m s).1 e

module _ {S A : Type 0} (m : Exec S A) (handler : Failure → Exec S A) {s t : S} where
  pub catch-ok : {a : A} → m s ≡ (ok a, t) → catch m handler s ≡ (ok a, t)
  catch-ok e = ap (λ (p : Result A × S). handle p.0 handler p.1) e

  pub catch-err : {x : Failure} → m s ≡ (err x, t) → catch m handler s ≡ handler x t
  catch-err e = ap (λ (p : Result A × S). handle p.0 handler p.1) e

-- A call of the client that returned did so on the database, and left that one.
pub call-eq-ok :
    {Db A : Type 0} (m : Exec Db A) (w w' : World Db) (a : A)
    → call m w ≡ (ok a, w')
    → m w.db ≡ (ok a, w'.db)
call-eq-ok m w w' a e = λ i. ((e i).0, (e i).1.db)
