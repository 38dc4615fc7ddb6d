-- ===== src/Exec.antt =====
-- What the program throws, and methods that change state and may throw: what was written before a
-- throw stays written, so the state comes back beside the failure too.
pub mod Laws
use baja_valle_service.Prelude.{ℕ, ◌≡◌, refl, ◌⊎◌, inl, inr, Bool, true, false, if◌then◌else◌}
use baja_valle_service.Text.{Text}

-- The exception classes of @nestjs/common that the program throws, with their message.
pub data HttpException : Type 0 where
  bad_request unauthorized forbidden not_found conflict internal_server_error : Text → HttpException
  too_many_requests : Text → HttpException

-- getStatus()
abbrev pub status : HttpException → ℕ
status (HttpException.bad_request _) = 400
status (HttpException.unauthorized _) = 401
status (HttpException.forbidden _) = 403
status (HttpException.not_found _) = 404
status (HttpException.conflict _) = 409
status (HttpException.internal_server_error _) = 500
status (HttpException.too_many_requests _) = 429

-- Codes of Prisma's errors: unique constraint, missing record, an invalid argument, any other.
pub data PrismaCode : Type 0 where
  p2002 p2025 validation other : PrismaCode

pub data Failure : Type 0 where
  http : HttpException → Failure
  prisma : PrismaCode → Failure
  decryption_error : Failure
  error : Text → Failure

pub data Result {ℓ} (A : Type ℓ) : Type ℓ where
  ok : A → Result A
  err : Failure → Result A

abbrev pub Exec : Type 0 → Type 0 → Type 0
Exec S A = S → Result A × S

module _ {S A : Type 0} where
  abbrev pub pure : A → Exec S A
  pure a s = (ok a, s)

  abbrev pub throw : Failure → Exec S A
  throw e s = (err e, s)

  abbrev pub lift : Result A → Exec S A
  lift r s = (r, s)

  abbrev pub gets : (S → A) → Exec S A
  gets f s = (ok (f s), s)

abbrev pub continue : {S A B : Type 0} → Result A → (A → Exec S B) → Exec S B
continue (ok a) f s = f a s
continue (err e) f s = (err e, s)

infixl 5 ◌>>=◌ ◌>>◌
abbrev pub ◌>>=◌ : {S A B : Type 0} → Exec S A → (A → Exec S B) → Exec S B
◌>>=◌ m f s = let (r, s') = m s in continue r f s'

abbrev pub ◌>>◌ : {S A B : Type 0} → Exec S A → Exec S B → Exec S B
m >> k = m >>= λ _. k

-- try { m } catch (e) { handler(e) }
abbrev pub handle : {S A : Type 0} → Result A → (Failure → Exec S A) → Exec S A
handle (ok a) handler s = (ok a, s)
handle (err e) handler s = handler e s

abbrev pub catch : {S A : Type 0} → Exec S A → (Failure → Exec S A) → Exec S A
catch m handler s = let (r, s') = m s in handle r handler s'

abbrev pub throw_if : {S : Type 0} → Bool → Failure → Exec S (Unit {0})
throw_if b e s = (if b then err e else ok tt, s)

pub Result-cases {ℓ} :
    {A : Type ℓ} (r : Result A) → ((e : Failure) × (r ≡ err e)) ⊎ ((a : A) × (r ≡ ok a))
Result-cases (ok a) = inr (a, refl)
Result-cases (err e) = inl (e, refl)
