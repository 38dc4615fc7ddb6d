-- ===== src/Wiring/Tests.antt =====
-- A run of the theorem on the accepted environment of Env/Tests.antt.
use baja_valle_service.Prelude.{[]}
use baja_valle_service.Node.Sample.{sample, sample_laws}
use baja_valle_service.Prisma.Memory.Calls.{memory}
use baja_valle_service.Prisma.Memory.Laws.{memory_laws}
use baja_valle_service.App.{AppLaws}
use baja_valle_service.Env.Tests.{lenient, config, env, accepted}
use baja_valle_service.Wiring.{configure}
use baja_valle_service.Wiring.Laws.{configure-AppLaws}
use baja_valle_service.Sample.{jwt}

configure-AppLaws_example : AppLaws (configure sample memory (λ options. jwt) [] env)
configure-AppLaws_example =
    configure-AppLaws sample memory (λ options. jwt) [] lenient config env sample_laws memory_laws
      accepted
