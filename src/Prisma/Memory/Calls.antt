-- ===== src/Prisma/Memory/Calls.antt =====
-- The calls of the database in memory.
use baja_valle_service.Prelude.{
  ℕ, zero, suc, ◌+◌, ◌≡◌, refl, sym, ap, ◌∙◌, Bool, true, false, ◌&&◌, ◌||◌, Option, none, some,
  arith, ◌==◌, ==_iff, if◌then◌else◌,
}
use baja_valle_service.Text.{Text, text_eq}
use baja_valle_service.Text.Laws.{text_eq_iff}
use baja_valle_service.Exec.{prisma, p2002, p2025, validation, other, Result, ok, err}
use baja_valle_service.Prisma.{
  User, Session, UserData, UserPatch, SessionData, new_user, new_session, is_null, Prisma,
}
use baja_valle_service.Prisma.Laws.{count_if}
use baja_valle_service.Prisma.Memory.Find.{find_below, find_below-none}
use baja_valle_service.Prisma.Memory.{
  touched, Db, user_key, session_key, free_key, add_user, set_user, drop_user, add_session, revoke,
}

abbrev pub has_email : Text → User → Bool
has_email k u = text_eq u.email_hash k

abbrev pub has_token : Text → Session → Bool
has_token k s = text_eq s.token_hash k

-- The row of a search, with the equation that a table change asks for.
abbrev pub create_user :
    (d : UserData) (db : Db) (found : Option User)
    → find_below (has_email d.email_hash) db.users db.next_user ≡ found
    → Result User × Db
create_user d db (some u) e = (err (prisma p2002), db)
create_user d db none e = (
  ok (new_user d db.next_user 0 0),
  add_user d db (free_key (λ u. u.id) user_key db.next_user db.users d.email_hash db.user_table e),
)

-- Another user with the email of a row.
abbrev pub rival : User → User → Bool
rival u v = text_eq v.email_hash u.email_hash && (if v.id == u.id then false else true)

pub no_rival :
    (u : User) (db : Db)
    → find_below (rival u) db.users db.next_user ≡ none
    → (j : ℕ) (v : User) → db.users j ≡ some v
    → v.email_hash ≡ u.email_hash
    → u.id ≡ j
no_rival u db unseen j v there same =
    let miss =
      find_below-none (rival u) db.users db.next_user unseen j v (db.user_table.below j v there)
        there in
    let hit = (text_eq_iff v.email_hash u.email_hash).1 same in
    let at = db.user_table.at_id j v there in ground (arith, ==_iff v.id u.id)

abbrev pub write_user :
    (u old : User) (db : Db)
    → db.users old.id ≡ some old
    → u.id ≡ old.id
    → (found : Option User) → find_below (rival u) db.users db.next_user ≡ found
    → Result User × Db
write_user u old db there same (some v) e = (err (prisma p2002), db)
write_user u old db there same none e =
    (ok u, set_user u old db there same (λ j v here key. sym same ∙ no_rival u db e j v here key))

abbrev pub update_user :
    (patch : UserPatch) (i : ℕ) (db : Db) (found : Option User)
    → db.users i ≡ found
    → Result User × Db
update_user patch i db none e = (err (prisma p2025), db)
update_user patch i db (some old) e =
    write_user (touched patch old) old db (ap db.users (db.user_table.at_id i old e) ∙ e) refl
      (find_below (rival (touched patch old)) db.users db.next_user) refl

abbrev pub delete_user : ℕ → Db → Option User → Result User × Db
delete_user i db none = (err (prisma p2025), db)
delete_user i db (some u) = (ok u, drop_user i db)

abbrev pub write_session :
    (d : SessionData) (u : User) (db : Db)
    → db.users d.user_id ≡ some u
    → (found : Option Session)
    → find_below (has_token d.token_hash) db.sessions db.next_session ≡ found
    → Result Session × Db
write_session d u db mine (some s) e = (err (prisma p2002), db)
write_session d u db mine none e = (
  ok (new_session d db.next_session 0),
  add_session d u db mine (
      free_key (λ s. s.id) session_key db.next_session db.sessions d.token_hash db.session_table e),
)

abbrev pub create_session :
    (d : SessionData) (db : Db) (found : Option User)
    → db.users d.user_id ≡ found
    → Result Session × Db
create_session d db none e = (err (prisma other), db)
create_session d db (some u) e =
    write_session d u db e (find_below (has_token d.token_hash) db.sessions db.next_session) refl

-- A session with its user.
abbrev pub beside : Session → Option User → Option (Session × User)
beside s none = none
beside s (some u) = some (s, u)

abbrev pub with_user : (ℕ → Option User) → Option Session → Option (Session × User)
with_user users none = none
with_user users (some s) = beside s (users s.user_id)

unfoldable pub count_below : (Session → Bool) → (ℕ → Option Session) → ℕ → ℕ
count_below w f zero = 0
count_below w f (suc n) = count_if w (f n) + count_below w f n

abbrev pub memory : Prisma
memory = record {
  Db = Db;
  user = λ db. db.users;
  session = λ db. db.sessions;
  user_find = λ w db. find_below w db.users db.next_user;
  user_create =
      λ d db. create_user d db (find_below (has_email d.email_hash) db.users db.next_user) refl;
  user_update = λ i patch db.
      if is_null patch.first_name_enc || is_null patch.last_name_enc
      then (err (prisma validation), db)
      else update_user patch i db (db.users i) refl;
  user_delete = λ i db. delete_user i db (db.users i);
  session_find = λ w db. with_user db.users (find_below w db.sessions db.next_session);
  session_create = λ d db. create_session d db (db.users d.user_id) refl;
  session_revoke_many = λ w t db. (count_below w db.sessions db.next_session, revoke w t db);
}
