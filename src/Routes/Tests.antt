-- ===== src/Routes/Tests.antt =====
-- A run of the theorem on the routes, on the session of the sample application.
use baja_valle_service.Prelude.{◌≡◌, refl, Option, none, some}
use baja_valle_service.Text.{Text, codes, split, strip_prefix}
use baja_valle_service.Node.Sample.{sample}
use baja_valle_service.Prisma.{Role}
use baja_valle_service.Prisma.Memory.{add_user, add_session}
use baja_valle_service.Prisma.Memory.Find.{find_below}
use baja_valle_service.Exec.{ok}
use baja_valle_service.App.{State}
use baja_valle_service.Sessions.{find_active}
use baja_valle_service.Auth.{AuthUser}
use baja_valle_service.Guards.{is_token_char, bearer, can_activate}
use baja_valle_service.Guards.Laws.{IsIdentity}
use baja_valle_service.Routes.{Request, Response, is_public, ignores_access_token, run, handle}
use baja_valle_service.Routes.Laws.{handle_private}
use baja_valle_service.Sample.{app, laws, start, account, one_user, one_session, first_session}

abbrev header : Text
header = codes "Bearer x.0.y"

answered :
    handle app (some header) none Request.me one_session
    ≡ (ok (Response.identity 0 Role.client), record one_session { ticks = 2 })
unfolding app sample start one_user account one_session first_session find_below add_user
    add_session can_activate find_active bearer is_token_char split strip_prefix handle run
    is_public ignores_access_token
answered = refl

handle_private_example :
    (h token : Text) × (a : AuthUser) × (v : State app) × (◌≡◌ {A = Option Text}
      (some header)
      (some h))
    × (bearer h ≡ some token)
    × IsIdentity app token one_session a
    × (v.db ≡ one_session.db)
    × (run app Request.me (some a) none v
        ≡ (ok (Response.identity 0 Role.client), record one_session { ticks = 2 }))
unfolding is_public
handle_private_example =
    handle_private app laws Request.me (some header) none one_session
      (record one_session { ticks = 2 }) (Response.identity 0 Role.client) refl answered
