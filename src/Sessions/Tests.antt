-- ===== src/Sessions/Tests.antt =====
-- Runs of the theorems on sessions, on the session of the sample application.
use baja_valle_service.Prelude.{
  ℕ, ◌<◌, ◌≡◌, ◌≢◌, refl, sym, ap, ◌∙◌, false, Option, none, some, [], ◌∷◌, arith,
}
use baja_valle_service.Text.{Text, codes, text_eq}
use baja_valle_service.Text.Laws.{text_eq_iff}
use baja_valle_service.Node.Sample.{sample, encode}
use baja_valle_service.Prisma.{Session}
use baja_valle_service.Exec.{Result, ok, err}
use baja_valle_service.World.{Warning}
use baja_valle_service.App.{State}
use baja_valle_service.Sessions.{
  Active, Rotated, invalid_session, hash_token, rotate, find_active, revoke_all_for_user,
}
use baja_valle_service.Sessions.Rotation.{IsRotation, rotate-IsRotation}
use baja_valle_service.Sessions.Reuse.{rotate_in_grace, rotate_reused, rotate-rotate}
use baja_valle_service.Sessions.Found.{Holds}
use baja_valle_service.Sessions.Total.{rotate_total}
use baja_valle_service.Sessions.Revocation.{find_active-revoke_all}
use baja_valle_service.Sample.{
  app, laws, start, one_user, ana_session, one_session, one_session-row, one_session-only,
  spent_session, one_spent, one_spent-row, first_session,
}

abbrev token : Text
token = codes "t"

holds : Holds app token ana_session one_session
unfolding ana_session first_session
holds = record { row = one_session-row; hash = refl }

spent-Holds : Holds app token spent_session one_spent
unfolding spent_session ana_session first_session
spent-Holds = record { row = one_spent-row; hash = refl }

-- The same database, when the clock has been read n times.
abbrev at_tick : ℕ → State app → State app
at_tick n w = record w { ticks = n }

-- The next token is not the one in the database.
not_drawn :
    (i : ℕ) (s : Session)
    → app.prisma.session one_session.db i ≡ some s
    → s.token_hash
      ≢ hash_token app (app.node.to_base64url (app.node.random_bytes one_session.draws 32))
unfolding app start one_session ana_session first_session hash_token sample encode
not_drawn i s e taken =
    let drawn =
      hash_token app (app.node.to_base64url (app.node.random_bytes one_session.draws 32)) in
    let hit =
      (text_eq_iff ana_session.token_hash drawn).1
        (ap (λ (x : Session). x.token_hash) (sym (one_session-only i s e)) ∙ taken) in
    let miss : text_eq ana_session.token_hash drawn ≡ false = refl in cc

rotated : (r : Rotated) × (w' : State app) × (rotate app token none one_session ≡ (ok r, w'))
unfolding app start one_session one_user ana_session first_session sample
rotated =
    rotate_total app laws token none ana_session one_session holds refl (omega arith) not_drawn

rotate-IsRotation_example :
    (s : Session) × (app.prisma.session one_session.db s.id ≡ some s)
    × (s.token_hash ≡ hash_token app token)
    × (s.revoked_at ≡ none)
    × (app.node.clock one_session.ticks < s.expires_at)
    × IsRotation app s one_session rotated.1 rotated.0
rotate-IsRotation_example =
    rotate-IsRotation app laws token none one_session rotated.1 rotated.0 rotated.2

rotate-rotate_example : (rotate app token none rotated.1).0 ≡ err invalid_session
rotate-rotate_example =
    rotate-rotate app laws token none none one_session rotated.1 rotated.0 rotated.2

rotate_total_example :
    (r : Rotated) × (w' : State app) × (rotate app token none one_session ≡ (ok r, w'))
unfolding app start one_session one_user ana_session first_session sample
rotate_total_example =
    rotate_total app laws token none ana_session one_session holds refl (omega arith) not_drawn

rotate_in_grace_example : (rotate app token none (at_tick 3 one_spent)).0 ≡ err invalid_session
unfolding app start one_spent one_session one_user ana_session first_session spent_session sample
rotate_in_grace_example =
    (rotate_in_grace app laws token none spent_session 1000 (at_tick 3 one_spent)
      (record { row = spent-Holds.row; hash = spent-Holds.hash }) refl (omega arith)
      (omega arith)).0

rotate_reused_example :
    (rotate app token none (at_tick 30 one_spent)).1.log ≡ Warning.token_reuse 5 0 ∷ []
unfolding app start one_spent one_session one_user ana_session first_session spent_session sample
rotate_reused_example =
    (rotate_reused app laws token none spent_session 1000 (at_tick 30 one_spent)
      (record { row = spent-Holds.row; hash = spent-Holds.hash }) refl (omega arith)
      (omega arith)).3

find_active-revoke_all_example :
    (find_active app 0 (revoke_all_for_user app 0 (some 3) one_session).1).0 ≡ ok none
unfolding ana_session first_session
find_active-revoke_all_example =
    ap (λ (p : Result (Option Active) × State app). p.0)
      (find_active-revoke_all app laws 0 0 (some 3) ana_session one_session
        (revoke_all_for_user app 0 (some 3) one_session).1 one_session-row refl (λ e. ground arith)
        refl)
