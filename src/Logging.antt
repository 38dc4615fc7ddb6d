-- ===== src/Logging.antt =====
-- src/common/interceptors/logging.interceptor.ts, around a handler over a state S. A line of the log
-- is kept as what it shows, with both readings of the clock in place of their difference.
pub mod Laws
use baja_valle_service.Prelude.{ℕ, ◌+◌, List, [], ◌∷◌}
use baja_valle_service.Text.{Text}
use baja_valle_service.Exec.{
  HttpException, status, Failure, Result, ok, err, Exec, ◌>>=◌, ◌>>◌, pure, throw,
}

pub data Line : Type 0 where
  received : Text → Text → Line
  answered : Text → Text → ℕ → ℕ → ℕ → Line
  failed : Text → Text → ℕ → ℕ → ℕ → Failure → Line

-- The state of the handler, how far the clock has been read, and the lines, the last one first.
pub record Logged (S : Type 0) : Type 0 where
  pub inner : S
  pub ticks : ℕ
  pub lines : List Line

-- err instanceof HttpException ? err.getStatus() : 500
unfoldable pub status_of : Failure → ℕ
status_of (Failure.http e) = status e
status_of _ = 500

log : {S : Type 0} → Line → Logged S → Logged S
log line s = record s { lines = line ∷ s.lines }

module _ {S A : Type 0} (clock : ℕ → ℕ) where
  -- The two branches of the pipe; `res.statusCode` is read of the state.
  finish : Text → Text → (S → ℕ) → ℕ → Result A → Exec (Logged S) A
  unfolding log status_of
  finish method url status_code start (ok a) s = (
    ok a,
    log (Line.answered method url (status_code s.inner) start (clock s.ticks))
        (record s { ticks = s.ticks + 1 }),
  )
  finish method url status_code start (err e) s = (
    err e,
    log (Line.failed method url (status_of e) start (clock s.ticks) e)
        (record s { ticks = s.ticks + 1 }),
  )

  unfoldable pub intercept : Text → Text → (S → ℕ) → Exec S A → Exec (Logged S) A
  unfolding finish log
  intercept method url status_code next s =
      let begun = log (Line.received method url) (record s { ticks = s.ticks + 1 }) in
      let (r, inner) = next s.inner in
      finish method url status_code (clock s.ticks) r (record begun { inner = inner })
