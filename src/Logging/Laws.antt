-- ===== src/Logging/Laws.antt =====
-- The interceptor changes nothing of what it surrounds.
use baja_valle_service.Prelude.{ℕ, ◌+◌, ◌≡◌, inl, inr, ◌∷◌, arith}
use baja_valle_service.Text.{Text}
use baja_valle_service.Exec.{Failure, err, Exec, Result-cases}
use baja_valle_service.Logging.{Line, Logged, status_of, intercept}

module _ {S A : Type 0} (clock : ℕ → ℕ) where
  -- The answer and the state of the handler stay as they are, whether it returns or throws.
  pub intercept_lem :
      (method url : Text) (status_code : S → ℕ) (next : Exec S A) (s : Logged S)
      → ((intercept clock method url status_code next s).0 ≡ (next s.inner).0)
        × ((intercept clock method url status_code next s).1.inner ≡ (next s.inner).1)
  unfolding intercept
  intercept_lem method url status_code next s = elim (Result-cases (next s.inner).0) [
    | inl (e, thrown) ↦ (ground arith, ground arith)
    | inr (a, returned) ↦ (ground arith, ground arith)
  ]

  -- A failure is logged with its status, behind the line of the request.
  pub intercept-err :
      (method url : Text) (status_code : S → ℕ) (next : Exec S A) (s : Logged S) (e : Failure)
      → (next s.inner).0 ≡ err e
      → (time : ℕ) × ((intercept clock method url status_code next s).1.lines
          ≡ Line.failed method url (status_of e) (clock s.ticks) time e
            ∷ Line.received method url
            ∷ s.lines)
  unfolding intercept status_of
  intercept-err method url status_code next s e thrown = (clock (s.ticks + 1), ground arith)
