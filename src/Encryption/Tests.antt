-- ===== src/Encryption/Tests.antt =====
-- Runs of the theorems on encryption, with the sample Node.js.
use baja_valle_service.Prelude.{ℕ, ◌≡◌, refl, false, none, some, [], ◌∷◌, arith}
use baja_valle_service.Text.{Text, codes}
use baja_valle_service.Node.{Bytes}
use baja_valle_service.Node.Sample.{sample, sample_laws, sample-IsText, copies}
use baja_valle_service.Exec.{ok}
use baja_valle_service.World.{World}
use baja_valle_service.Encryption.{
  Keys, Payload, get, current_version, format, seal, encrypt, decrypt, needs_reencryption,
  reencrypt,
}
use baja_valle_service.Encryption.Laws.{decrypt-encrypt, encrypt_total, decrypt_extend}

abbrev old_ring : Keys
old_ring = (1, 7 ∷ []) ∷ []

abbrev new_ring : Keys
new_ring = (1, 7 ∷ []) ∷ (2, 8 ∷ []) ∷ []

abbrev world : World Unit
world = record { db = tt; ticks = 0; draws = 3; log = []; dummy_hash = none }

abbrev payload : Payload
payload = record { version = 12; iv = copies 12 5; tag = copies 16 6; ciphertext = 9 ∷ [] }

-- A name under the old ring, and what it is sealed to.
abbrev sealed : Text
sealed =
    format sample
      (seal sample 1 (7 ∷ []) (sample.random_bytes 3 12) (codes "Ana") (codes "user.first"))

sealed-eq :
    encrypt sample old_ring (codes "Ana") (codes "user.first") world
    ≡ (ok sealed, record world { draws = 4 })
unfolding get current_version
sealed-eq =
    encrypt_total sample sample_laws old_ring (7 ∷ []) (codes "Ana") (codes "user.first") world refl

decrypt-encrypt_example :
    (decrypt sample old_ring sealed (codes "user.first") ≡ ok (codes "Ana"))
    × (needs_reencryption sample old_ring sealed ≡ ok false)
unfolding current_version
decrypt-encrypt_example =
    decrypt-encrypt sample sample_laws old_ring (codes "Ana") (codes "user.first") sealed world
      (record world { draws = 4 }) (omega arith) (sample-IsText (codes "Ana")) sealed-eq

read_old : decrypt sample old_ring sealed (codes "user.first") ≡ ok (codes "Ana")
unfolding current_version
read_old =
    (decrypt-encrypt sample sample_laws old_ring (codes "Ana") (codes "user.first") sealed world
      (record world { draws = 4 }) (omega arith) (sample-IsText (codes "Ana")) sealed-eq).0

keeps_keys : (v : ℕ) (key : Bytes) → get old_ring v ≡ some key → get new_ring v ≡ some key
unfolding get
keeps_keys v key e = ground arith

decrypt_extend_example : decrypt sample new_ring sealed (codes "user.first") ≡ ok (codes "Ana")
decrypt_extend_example =
    decrypt_extend sample sample_laws old_ring new_ring sealed (codes "user.first") (codes "Ana")
      keeps_keys read_old

read_new : decrypt sample new_ring sealed (codes "user.first") ≡ ok (codes "Ana")
read_new =
    decrypt_extend sample sample_laws old_ring new_ring sealed (codes "user.first") (codes "Ana")
      keeps_keys read_old

-- The same name under the current key of the new ring.
abbrev resealed : Text
resealed =
    format sample
      (seal sample 2 (8 ∷ []) (sample.random_bytes 3 12) (codes "Ana") (codes "user.first"))

resealed-eq :
    reencrypt sample new_ring sealed (codes "user.first") world
    ≡ (ok resealed, record world { draws = 4 })
unfolding get current_version reencrypt
resealed-eq = rw read_new (
    encrypt_total sample sample_laws new_ring (8 ∷ []) (codes "Ana") (codes "user.first") world
      refl)
