-- ===== src/Routes/Laws.antt =====
-- What a handler may rely on.
use baja_valle_service.Prelude.{◌≡◌, false, Option, none, some, inl, inr, arith}
use baja_valle_service.Text.{Text}
use baja_valle_service.Exec.{ok, Result-cases}
use baja_valle_service.App.{App, AppLaws, State}
use baja_valle_service.Auth.{AuthUser}
use baja_valle_service.Guards.{bearer, can_activate}
use baja_valle_service.Guards.Laws.{IsIdentity, can_activate_sound, can_activate_guest}
use baja_valle_service.Routes.{Request, Response, is_public, ignores_access_token, run, handle}

module _ (app : App) (laws : AppLaws app) where
  -- A request to a handler that is not public is answered with success only if its Bearer token is
  -- signed and its session is open, not expired and of that user; the answer is then the one of the
  -- handler for that user, on a database that the guard has not changed.
  pub handle_private :
      (req : Request) (authorization user_agent : Option Text) (w w' : State app) (r : Response)
      → is_public req ≡ false
      → handle app authorization user_agent req w ≡ (ok r, w')
      → (header token : Text) × (a : AuthUser) × (v : State app) × (authorization ≡ some header)
        × (bearer header ≡ some token)
        × IsIdentity app token w a
        × (v.db ≡ w.db)
        × (run app req (some a) user_agent v ≡ (ok r, w'))
  unfolding handle
  handle_private req authorization user_agent w w' r closed e =
      let guard = can_activate app (is_public req) (ignores_access_token req) authorization in
      elim (Result-cases (guard w).0) [
        | inl (f, bad) ↦ ground arith
        | inr (none, guest) ↦
            let (public, _) =
              can_activate_guest app laws (is_public req) (ignores_access_token req) authorization w
                guest in
            cc
        | inr (some a, admitted) ↦
            let v : State app = (guard w).1 in
            let (header, token, given, read, known, same) =
              can_activate_sound app laws (is_public req) (ignores_access_token req) authorization w
                v a (ground arith) in
            (header, token, a, v, given, read, known, same, ground arith)
      ]
