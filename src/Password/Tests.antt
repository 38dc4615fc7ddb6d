-- ===== src/Password/Tests.antt =====
-- Runs of the theorems on passwords, with the sample Node.js.
use baja_valle_service.Prelude.{
  ◌≡◌, ◌≢◌, ◌≤◌, Bool, true, false, none, some, [], ◌∷◌, length, All, ◌↔◌,
}
use baja_valle_service.Text.{Text, codes}
use baja_valle_service.Text.Laws.{Occurs}
use baja_valle_service.Node.Sample.{sample, sample_laws}
use baja_valle_service.Exec.{ok}
use baja_valle_service.World.{World}
use baja_valle_service.Password.{
  default_params, salt_bytes, hash_bytes, min_email_part, hash, verify, needs_rehash, local_part,
  assert_acceptable,
}
use baja_valle_service.Password.Laws.{verify-hash, assert_acceptable_iff}
use baja_valle_service.Password.Dummy.{IsReady}

abbrev world : World Unit
world = record { db = tt; ticks = 0; draws = 3; log = []; dummy_hash = none }

abbrev password : Text
password = codes "hidden word"

verify-hash_example :
    (h : Text) × (hash sample password world ≡ (ok h, record world { draws = 4 }))
    × (verify sample h password world ≡ (ok true, world))
    × ((b : Bool) × (verify sample h (codes "another") world ≡ (ok b, world))
        × ((b ≡ true) ↔ (
            sample.argon2id
              (codes "another")
              (sample.random_bytes 3 salt_bytes)
              hash_bytes
              default_params
            ≡ sample.argon2id password
                (sample.random_bytes 3 salt_bytes)
                hash_bytes
                default_params)))
    × (needs_rehash sample h ≡ false)
verify-hash_example = verify-hash sample sample_laws password (codes "another") world world

assert_acceptable_iff_example :
    (assert_acceptable sample (codes "qwerty" ∷ []) password (some (codes "ana@x.mx")) ≡ ok tt) ↔ (
      All (λ c. c ≢ sample.to_lower_case password) (codes "qwerty" ∷ [])
      × ¬ (
          (min_email_part ≤ length (sample.to_lower_case (local_part (codes "ana@x.mx"))))
          × Occurs
              (sample.to_lower_case (local_part (codes "ana@x.mx")))
              (sample.to_lower_case password)))
assert_acceptable_iff_example =
    assert_acceptable_iff sample sample_laws (codes "qwerty" ∷ []) password (codes "ana@x.mx")

ready : IsReady sample world
ready = record { dummy = λ h e. cc }
