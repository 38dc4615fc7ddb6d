-- ===== src/Guards/Tests.antt =====
-- Runs of the theorems on the guards, on the session of the sample application.
use baja_valle_service.Prelude.{◌≡◌, ◌≢◌, ◌⊎◌, ◌↔◌, refl, true, false, Option, none, some, [], ◌∷◌}
use baja_valle_service.Text.{Text, codes, split, strip_prefix}
use baja_valle_service.Node.Sample.{sample}
use baja_valle_service.Prisma.{Role}
use baja_valle_service.Prisma.Memory.{add_user, add_session}
use baja_valle_service.Prisma.Memory.Find.{find_below}
use baja_valle_service.Exec.{ok, err}
use baja_valle_service.Sessions.{find_active}
use baja_valle_service.Auth.{AuthUser}
use baja_valle_service.Guards.{is_token_char, bearer, can_activate, roles_can_activate, forbidden}
use baja_valle_service.Guards.Laws.{
  IsIdentity, IsOneOf, can_activate_sound, can_activate_guest, roles_can_activate_iff,
}
use baja_valle_service.Sample.{app, laws, start, account, one_user, one_session, first_session}

abbrev header : Text
header = codes "Bearer x.0.y"

abbrev identity : AuthUser
identity = record { id = 0; role = Role.client; session_id = 0 }

admitted :
    can_activate app false false (some header) one_session
    ≡ (ok (some identity), record one_session { ticks = 2 })
unfolding app sample start one_user account one_session first_session find_below add_user
    add_session can_activate find_active bearer is_token_char split strip_prefix
admitted = refl

can_activate_sound_example :
    (h token : Text) × (◌≡◌ {A = Option Text} (some header) (some h))
    × (bearer h ≡ some token)
    × IsIdentity app token one_session identity
    × (one_session.db ≡ one_session.db)
can_activate_sound_example =
    can_activate_sound app laws false false (some header) one_session
      (record one_session { ticks = 2 }) identity admitted

can_activate_guest_example :
    (true ≡ true)
    × ((false ≡ true)
        ⊎ ((◌≡◌ {A = Option Text} none none) ⊎ (◌≡◌ {A = Option Text} none (some []))))
unfolding can_activate
can_activate_guest_example = can_activate_guest app laws true false none one_session refl

roles_can_activate_iff_example :
    ((roles_can_activate (some (Role.admin ∷ [])) (some identity) ≡ ok true) ↔ (
      (a : AuthUser) × (◌≡◌ {A = Option AuthUser} (some identity) (some a))
      × IsOneOf a.role (Role.admin ∷ [])))
    × ((roles_can_activate (some (Role.admin ∷ [])) (some identity) ≢ ok true)
        → roles_can_activate (some (Role.admin ∷ [])) (some identity) ≡ err forbidden)
roles_can_activate_iff_example = roles_can_activate_iff Role.admin [] (some identity)
