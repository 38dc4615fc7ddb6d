-- ===== src/Sessions/Race/Tests.antt =====
-- Two calls with one token: both find the session, and one claims it.
use baja_valle_service.Prelude.{ℕ, ◌≡◌, refl, Option, none, some}
use baja_valle_service.Text.{Text, codes}
use baja_valle_service.Node.Sample.{sample, encode}
use baja_valle_service.Prisma.Memory.{add_user, add_session, revoke}
use baja_valle_service.Prisma.Memory.Find.{find_below}
use baja_valle_service.Prisma.Memory.Calls.{count_below}
use baja_valle_service.Sample.{app, laws, one_session, one_user, start, first_session}
use baja_valle_service.Sessions.{hash_token}
use baja_valle_service.Sessions.Race.{Pc, claims, step, System, update, Step, Reach}
use baja_valle_service.Sessions.Race.Safety.{one_claim}

abbrev token : Text
token = codes "t"

abbrev asked_tokens : ℕ → Text
asked_tokens i = token

abbrev no_agents : ℕ → Option Text
no_agents i = none

-- What a system is after a step of a call.
abbrev ran : ℕ → System app → System app
ran i sys = record {
  pc = update sys.pc i (step app (sys.pc i) sys.world).0;
  world = (step app (sys.pc i) sys.world).1;
}

abbrev asked : System app
asked = record { pc = λ i. Pc.asked token none; world = one_session }

-- The calls 0 and 1 find the session, and then both try to claim it.
abbrev raced : System app
raced = ran 1 (ran 0 (ran 1 (ran 0 asked)))

raced_reach : Reach app asked_tokens no_agents one_session raced
raced_reach =
    Reach.later
      (Reach.later (Reach.later (Reach.later Reach.start (Step.run 0)) (Step.run 1)) (Step.run 0))
      (Step.run 1)

first_claims : claims (raced.pc 0) ≡ some 0
unfolding app one_session one_user start first_session step claims hash_token sample encode
    find_below add_user add_session revoke count_below
first_claims = refl

second_refused : claims ((ran 1 (ran 1 raced)).pc 1) ≡ none
unfolding app one_session one_user start first_session step claims hash_token sample encode
    find_below add_user add_session revoke count_below
second_refused = refl

one_claim_example : ◌≡◌ {A = ℕ} 0 0
one_claim_example =
    one_claim app laws asked_tokens no_agents one_session raced raced_reach 0 0 0 0 refl
      first_claims first_claims
