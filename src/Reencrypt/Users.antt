-- ===== src/Reencrypt/Users.antt =====
-- What the script does to one user.
use mathlib.Core.Path.{subst}
use baja_valle_service.Prelude.{
  ℕ, ◌+◌, ◌≡◌, ◌≢◌, refl, ap, ◌∙◌, false, ◌||◌, Option, none, some, inl, inr, arith, Bool-cases,
  is_some,
}
use baja_valle_service.Text.{Text}
use baja_valle_service.Prisma.{User, get_or, value_or, apply_patch, is_null}
use baja_valle_service.Exec.{ok}
use baja_valle_service.Exec.Laws.{>>=-ok}
use baja_valle_service.App.{App, AppLaws, State}
use baja_valle_service.Users.Field
use baja_valle_service.Users.Updates.{user_update_lem}
use baja_valle_service.Reencrypt.{
  field_value, patch_of, write_fields, reencrypt_field, reencrypt_user,
}
use baja_valle_service.Reencrypt.Fields.{IsReadable, IsRenewed, reencrypt_field_lem}

value_or-field_value : (o : Option Text) (t : Text) → value_or (field_value o) t ≡ get_or o t
value_or-field_value none t = refl
value_or-field_value (some c) t = refl

not_null : (o : Option Text) → is_null (field_value o) ≡ false
not_null none = refl
not_null (some c) = refl

module _ (app : App) (laws : AppLaws app) where
  -- The three fields of a user decrypt.
  pub record IsReadableUser (u : User) : Type 0 where
    pub email : IsReadable app laws Field.email u.email_enc
    pub first_name : IsReadable app laws Field.first_name u.first_name_enc
    pub last_name : IsReadable app laws Field.last_name u.last_name_enc

  -- The fields are renewed, and every other column but the date of the update is as it was.
  pub record IsRenewedUser (u u' : User) : Type 0 where
    pub email : IsRenewed app laws Field.email u.email_enc u'.email_enc
    pub first_name : IsRenewed app laws Field.first_name u.first_name_enc u'.first_name_enc
    pub last_name : IsRenewed app laws Field.last_name u.last_name_enc u'.last_name_enc
    pub rest : u' ≡ record u {
      email_enc = u'.email_enc;
      first_name_enc = u'.first_name_enc;
      last_name_enc = u'.last_name_enc;
      updated_at = u'.updated_at;
    }

  -- What a call has done to the rows: one user is renewed.
  pub record Renews (u : User) (db db' : app.prisma.Db) : Type 0 where
    pub user : User
    pub row : app.prisma.user db' u.id ≡ some user
    pub renewed : IsRenewedUser u user
    pub others : (j : ℕ) → u.id ≢ j → app.prisma.user db' j ≡ app.prisma.user db j
    pub sessions : (j : ℕ) → app.prisma.session db' j ≡ app.prisma.session db j

  renewed_patch :
      (u : User) (email first last : Option Text) (now : ℕ)
      → IsRenewed app laws Field.email u.email_enc (get_or email u.email_enc)
      → IsRenewed app laws Field.first_name u.first_name_enc (get_or first u.first_name_enc)
      → IsRenewed app laws Field.last_name u.last_name_enc (get_or last u.last_name_enc)
      → IsRenewedUser u (apply_patch (patch_of email first last) now u)
  renewed_patch u email first last now e f l = record {
    email = e;
    first_name = rw (value_or-field_value first u.first_name_enc) f;
    last_name = rw (value_or-field_value last u.last_name_enc) l;
    rest = refl;
  }

  unchanged_patch :
      (u : User) (email first last : Option Text)
      → (is_some email || is_some first || is_some last) ≡ false
      → apply_patch (patch_of email first last) u.updated_at u ≡ u
  unchanged_patch u none none none e = refl
  unchanged_patch u (some c) first last e = cc
  unchanged_patch u none (some c) last e = cc
  unchanged_patch u none none (some c) e = cc

  write_fields_lem :
      (u : User) (email first last : Option Text) (updated : ℕ) (w : State app)
      → app.prisma.user w.db u.id ≡ some u
      → ((now : ℕ) → IsRenewedUser u (apply_patch (patch_of email first last) now u))
      → (count : ℕ) × (w' : State app) × (write_fields app u email first last updated w
          ≡ (ok count, w'))
        × Renews u w.db w'.db
  unfolding write_fields
  write_fields_lem u email first last updated w there renewed =
      elim (Bool-cases (is_some email || is_some first || is_some last)) [
        | inl some_new ↦
            let (now, db', written, writes) =
              user_update_lem app laws u.id (patch_of email first last) u w.db there refl
                (not_null first) (not_null last) in
            (
              updated + 1,
              record w { db = db' },
              ground arith,
              record {
                user = apply_patch (patch_of email first last) now u;
                row = writes.row;
                renewed = renewed now;
                others = writes.others;
                sessions = writes.sessions;
              },
            )
        | inr none_new ↦ (
          updated,
          w,
          ground arith,
          record {
            user = u;
            row = there;
            renewed =
                subst (IsRenewedUser u) (unchanged_patch u email first last none_new)
                  (renewed u.updated_at);
            others = λ j n. refl;
            sessions = λ j. refl;
          },
        )
      ]

  -- The script returns from a user whose fields decrypt, and has renewed that user and nothing else.
  pub reencrypt_user_lem :
      (u : User) (updated : ℕ) (w : State app)
      → app.prisma.user w.db u.id ≡ some u
      → IsReadableUser u
      → (count : ℕ) × (w' : State app) × (reencrypt_user app u updated w ≡ (ok count, w'))
        × Renews u w.db w'.db
  unfolding reencrypt_user
  reencrypt_user_lem u updated w there readable =
      let (email, w₁, e₁, same₁, new₁) =
        reencrypt_field_lem app laws u.email_enc Field.email w readable.email in
      let (first, w₂, e₂, same₂, new₂) =
        reencrypt_field_lem app laws u.first_name_enc Field.first_name w₁ readable.first_name in
      let (last, w₃, e₃, same₃, new₃) =
        reencrypt_field_lem app laws u.last_name_enc Field.last_name w₂ readable.last_name in
      let same = same₃ ∙ (same₂ ∙ same₁) in
      let (count, w', done, renews) =
        write_fields_lem u email first last updated w₃
          (ap (λ db. app.prisma.user db u.id) same ∙ there)
          (λ now. renewed_patch u email first last now new₁ new₂ new₃) in
      (
        count,
        w',
        >>=-ok (reencrypt_field app u.email_enc Field.email) _ e₁
            ∙ (>>=-ok (reencrypt_field app u.first_name_enc Field.first_name) _ e₂
                ∙ (>>=-ok (reencrypt_field app u.last_name_enc Field.last_name) _ e₃ ∙ done)),
        subst (λ db. Renews u db w'.db) same renews,
      )
