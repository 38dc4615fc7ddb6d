-- ===== src/Reencrypt/Fields.antt =====
-- What the script does to one field, and to one user.
use baja_valle_service.Prelude.{
  ◌+◌, ◌≡◌, refl, Bool, false, not, ◌==◌, Option, none, some, inl, inr, arith, Bool-cases,
}
use baja_valle_service.Text.{Text}
use baja_valle_service.Prisma.{get_or}
use baja_valle_service.Exec.{ok, Result-cases}
use baja_valle_service.Encryption.{parse, current_version, decrypt, needs_reencryption, reencrypt}
use baja_valle_service.Encryption.Laws.{decrypt-reencrypt}
use baja_valle_service.App.{App, AppLaws, State}
use baja_valle_service.Users.Updates.{seal_field}
use baja_valle_service.Reencrypt.{reencrypt_field}

module _ (app : App) (laws : AppLaws app) where
  -- A field that decrypts to a text that UTF-8 carries.
  unfoldable pub IsReadable : Text → Text → Type 0
  IsReadable context value =
      (t : Text) × laws.node_laws.IsText t
      × (decrypt app.node app.encryption_keys value context ≡ ok t)

  -- The new value decrypts to the text of the old one, and is under the current key.
  pub record IsRenewed (context value value' : Text) : Type 0 where
    pub content : Text
    pub before : decrypt app.node app.encryption_keys value context ≡ ok content
    pub after : decrypt app.node app.encryption_keys value' context ≡ ok content
    pub current : needs_reencryption app.node app.encryption_keys value' ≡ ok false

  needs_total :
      (value context t : Text)
      → decrypt app.node app.encryption_keys value context ≡ ok t
      → (b : Bool) × (needs_reencryption app.node app.encryption_keys value ≡ ok b)
  unfolding decrypt needs_reencryption
  needs_total value context t e = elim (Result-cases (parse app.node value)) [
    | inl (x, bad) ↦ ground arith
    | inr (p, good) ↦
        (not (p.version == current_version app.encryption_keys), rw (good, needs_reencryption) refl)
  ]

  reencrypt_total :
      (value context t : Text) (w : State app)
      → decrypt app.node app.encryption_keys value context ≡ ok t
      → (c : Text) × (w' : State app) × (reencrypt app.node app.encryption_keys value context w
          ≡ (ok c, w'))
        × (w'.db ≡ w.db)
  unfolding reencrypt
  reencrypt_total value context t w e =
      let (c, sealed) = seal_field app laws t context w in
      (c, record w { draws = w.draws + 1 }, rw (e) sealed, refl)

  pub reencrypt_field_lem :
      (value context : Text) (w : State app)
      → IsReadable context value
      → (o : Option Text) × (w' : State app) × (reencrypt_field app value context w ≡ (ok o, w'))
        × (w'.db ≡ w.db)
        × IsRenewed context value (get_or o value)
  unfolding reencrypt_field IsReadable
  reencrypt_field_lem value context w (t, text, read) =
      let (b, known) = needs_total value context t read in
      elim (Bool-cases b) [
        | inl old ↦
            let (c, w', done, same) = reencrypt_total value context t w read in
            let (back, fresh) =
              decrypt-reencrypt app.node laws.node_laws app.encryption_keys value context t c w w'
                laws.version_positive text read done in
            (
              some c,
              w',
              ground arith,
              same,
              record { content = t; before = read; after = back; current = fresh },
            )
        | inr new ↦ (
          none,
          w,
          ground arith,
          refl,
          record { content = t; before = read; after = read; current = ground arith },
        )
      ]
