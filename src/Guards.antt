-- ===== src/Guards.antt =====
-- src/auth/jwt-auth.guard.ts and src/auth/roles.guard.ts. What the reflector and the request give is
-- an argument.
pub mod Laws
pub mod Tests
use baja_valle_service.Prelude.{
  ℕ, Bool, true, false, not, ◌&&◌, ◌||◌, Option, none, some, List, [], ◌∷◌, leb, ◌==◌,
  if◌then◌else◌, all, any,
}
use baja_valle_service.Text.{Text, codes, split, is_digit, strip_prefix}
use baja_valle_service.Prisma.{Role, role_eq}
use baja_valle_service.Exec.{HttpException, Failure, Result, ok, err, Exec, ◌>>=◌, pure, throw}
use baja_valle_service.World.{World, now}
use baja_valle_service.App.{App, Action, AccessTokenPayload}
use baja_valle_service.Sessions.{Active, find_active, invalid_session}
use baja_valle_service.Auth.{AuthUser}

-- The class [\w-].
unfoldable pub is_token_char : ℕ → Bool
is_token_char c =
    (leb b'A' c && leb c b'Z') || (leb b'a' c && leb c b'z') || is_digit c || c == b'_' || c == b'-'

is_token_part : Text → Bool
is_token_part [] = false
is_token_part (c ∷ s) = is_token_char c && all is_token_char s

is_token_parts : List Text → Bool
is_token_parts (a ∷ b ∷ c ∷ []) = is_token_part a && is_token_part b && is_token_part c
is_token_parts _ = false

if_token : Text → Option Text
unfolding is_token_parts is_token_part
if_token s = if is_token_parts (split b'.' s) then some s else none

-- BEARER.exec(header)?.[1], for /^Bearer ([\w-]+\.[\w-]+\.[\w-]+)$/: no character of the class is a
-- dot, so the dots are where the text splits.
unfoldable pub bearer : Text → Option Text
unfolding if_token
bearer header = elim (strip_prefix (codes "Bearer ") header) [ none ↦ none | some s ↦ if_token s ]

abbrev pub login_required : Failure
login_required = Failure.http (HttpException.unauthorized (codes "Se requiere iniciar sesión"))

abbrev pub forbidden : Failure
forbidden = Failure.http (HttpException.forbidden (codes "No tienes permiso para esta acción"))

module _ (app : App) where
  -- The private method `verify`: a throw of `verifyAsync` is undefined.
  verify : Text → Action app (Option AccessTokenPayload)
  verify token = do time ← now app.node; pure (app.jwt.verify time token)

  verify_token : Option Text → Action app (Option AccessTokenPayload)
  verify_token none = pure none
  verify_token (some token) = verify token

  find_session : Option AccessTokenPayload → Action app (Option Active)
  find_session none = pure none
  find_session (some payload) = find_active app payload.sid

  -- The value of `req.user`, or the throw.
  admit : Option AccessTokenPayload → Option Active → Action app (Option AuthUser)
  admit (some payload) (some session) =
      if session.user_id == payload.sub
      then pure (some (record { id = payload.sub; role = session.role; session_id = payload.sid }))
      else throw invalid_session
  admit _ _ = throw invalid_session

  authenticate : Text → Action app (Option AuthUser)
  authenticate header = do
    payload ← verify_token (bearer header)
    session ← find_session payload
    admit payload session

  without_header : Bool → Action app (Option AuthUser)
  without_header is_public = if is_public then pure none else throw login_required

  with_header : Bool → Option Text → Action app (Option AuthUser)
  with_header is_public none = without_header is_public
  with_header is_public (some []) = without_header is_public
  with_header is_public (some (c ∷ s)) = authenticate (c ∷ s)

  -- JwtAuthGuard.canActivate: it returns true or throws, and the value here is the user that it sets
  -- in the request.
  unfoldable pub can_activate : Bool → Bool → Option Text → Action app (Option AuthUser)
  unfolding with_header without_header authenticate admit find_session verify_token verify
  can_activate is_public ignore_access_token authorization =
      if is_public && ignore_access_token then pure none else with_header is_public authorization

allows : List Role → Option AuthUser → Result Bool
allows roles none = err forbidden
allows roles (some user) = if any (role_eq user.role) roles then ok true else err forbidden

-- RolesGuard.canActivate, on the roles of the route
unfoldable pub roles_can_activate : Option (List Role) → Option AuthUser → Result Bool
unfolding allows
roles_can_activate none user = ok true
roles_can_activate (some []) user = ok true
roles_can_activate (some (r ∷ roles)) user = allows (r ∷ roles) user
