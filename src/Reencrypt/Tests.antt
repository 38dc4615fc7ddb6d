-- ===== src/Reencrypt/Tests.antt =====
-- A run of the theorem: the sample application with a second key, which is the current one.
use baja_valle_service.Prelude.{
  ℕ, ◌<◌, ◌≡◌, refl, sym, none, some, List, [], ◌∷◌, inl, inr, arith, ==_iff,
}
use mathlib.Core.Path.{subst}
use baja_valle_service.Text.{Text, codes}
use baja_valle_service.Node.Sample.{sample, sample_laws, sample-IsText}
use baja_valle_service.Prisma.{User}
use baja_valle_service.Prisma.Memory.{empty, add_user}
use baja_valle_service.Prisma.Memory.Calls.{memory}
use baja_valle_service.Prisma.Memory.Find.{find_below}
use baja_valle_service.Prisma.Memory.Table.{put-inv}
use baja_valle_service.Prisma.Memory.Laws.{memory_laws}
use baja_valle_service.Exec.{ok}
use baja_valle_service.Encryption.{get, current_version}
use baja_valle_service.Encryption.Laws.{decrypt_extend}
use baja_valle_service.App.{App, AppLaws, State}
use baja_valle_service.Users.Field
use baja_valle_service.Reencrypt.{PagesLaws, main_loop}
use baja_valle_service.Reencrypt.Fields.{IsReadable}
use baja_valle_service.Reencrypt.Users.{IsReadableUser}
use baja_valle_service.Reencrypt.Laws.{IsReencryption, main_loop-IsReencryption}
use baja_valle_service.Reencrypt.Sample.{memory_pages, memory_pages-IsPage, memory_pages_last}
use baja_valle_service.Sample.{app, account, sealed, ana_email, opens, ana, jwt}

abbrev two_keys : App
two_keys = record {
  node = sample;
  prisma = memory;
  jwt = jwt;
  encryption_keys = (2, 9 ∷ []) ∷ (1, 7 ∷ []) ∷ [];
  blind_index_key = 7 ∷ [];
  jwt_access_ttl_seconds = 900;
  refresh_token_ttl_days = 30;
  common_passwords = [];
}

-- The account of ana, whose fields are under the first key.
abbrev world : State two_keys
world = record {
  db = (memory.user_create (account ana_email) empty).1;
  ticks = 0;
  draws = 0;
  log = [];
  dummy_hash = none;
}

two_keys-AppLaws : AppLaws two_keys
unfolding get current_version
two_keys-AppLaws = record {
  node_laws = sample_laws;
  prisma_laws = memory_laws;
  version_positive = omega arith;
  current_key = 9 ∷ [];
  ring_current = refl;
}

pages-PagesLaws : PagesLaws two_keys memory_pages
pages-PagesLaws = record { page = memory_pages-IsPage; last = memory_pages_last }

world-only : (i : ℕ) (u : User) → world.db.users i ≡ some u → (0 ≡ i) × (u ≡ ana)
unfolding ana find_below add_user
world-only i u e = elim (put-inv (λ j. none) 0 i ana u e) [
  | inl (at, same) ↦ (at, same)
  | inr (_, there) ↦ cc
]

keeps_first :
    (v : ℕ) (key : List ℕ)
    → get app.encryption_keys v ≡ some key
    → get two_keys.encryption_keys v ≡ some key
unfolding app get
keeps_first v key e = ground (arith, ==_iff 2 v, ==_iff 1 v)

sealed-IsReadable :
    (t context : Text) → IsReadable two_keys two_keys-AppLaws context (sealed t context)
unfolding IsReadable two_keys-AppLaws app
sealed-IsReadable t context = (
  t,
  sample-IsText t,
  decrypt_extend sample sample_laws app.encryption_keys two_keys.encryption_keys (sealed t context)
      context t keeps_first (opens t context),
)

ana-IsReadableUser : IsReadableUser two_keys two_keys-AppLaws ana
unfolding ana account
ana-IsReadableUser = record {
  email = sealed-IsReadable ana_email Field.email;
  first_name = sealed-IsReadable (codes "Ana") Field.first_name;
  last_name = sealed-IsReadable (codes "Sosa") Field.last_name;
}

row_bound : (i : ℕ) (u : User) → world.db.users i ≡ some u → i < 1
row_bound i u e = omega (arith, (world-only i u e).0)

row_readable :
    (i : ℕ) (u : User) → world.db.users i ≡ some u → IsReadableUser two_keys two_keys-AppLaws u
row_readable i u e =
    subst (IsReadableUser two_keys two_keys-AppLaws) (sym (world-only i u e).1) ana-IsReadableUser

main_loop-IsReencryption_example :
    (count : ℕ) × (w' : State two_keys) × (main_loop two_keys memory_pages 2 none 0 world
      ≡ (ok (some count), w'))
    × IsReencryption two_keys two_keys-AppLaws world.db.users world.db w'.db
main_loop-IsReencryption_example =
    main_loop-IsReencryption two_keys two_keys-AppLaws memory_pages pages-PagesLaws 1 world
      (λ i u e. row_bound i u e) (λ i u e. row_readable i u e)
