-- ===== src/Prisma/Memory/Laws.antt =====
-- The database in memory meets the laws of the client.
use mathlib.Core.Path.{subst}
use baja_valle_service.Prelude.{◌+◌, ◌∙◌, ap, refl, if◌then◌else◌}
use baja_valle_service.Exec.{prisma, validation, err}
use baja_valle_service.Prisma.{is_null}
use baja_valle_service.Prisma.Laws.{PrismaLaws}
use baja_valle_service.Prisma.Memory.Find.{find_below, find_below-none, find_below-some}
use baja_valle_service.Prisma.Memory.{revoke}
use baja_valle_service.Prisma.Memory.Calls.{memory, update_user, has_email}
use baja_valle_service.Prisma.Memory.Users.{
  Made, create_user-Made, create_taken, create_free, Updated, user_update-Updated, update_own,
  update_taken, update_missing, unchecked,
}
use baja_valle_service.Prisma.Memory.Sessions.{
  Deleted, delete_user-Deleted, delete_user_total, Opened, create_session-Opened,
  create_session_total, with_user-some, with_user-none, count_revoke,
}

pub memory_laws : PrismaLaws memory
unfolding revoke
memory_laws = record {
  user_id = λ db. db.user_table.at_id;
  session_id = λ db. db.session_table.at_id;
  email_unique = λ db. db.user_table.unique;
  token_unique = λ db. db.session_table.unique;
  user_find_some = λ w db u e.
      let (i, there, hit) = find_below-some w db.users db.next_user u e in
      (ap db.users (db.user_table.at_id i u there) ∙ there, hit);
  user_find_none = λ w db e i u there.
      find_below-none w db.users db.next_user e i u (db.user_table.below i u there) there;
  session_find_some =
      λ w db s u e. with_user-some db w s u (find_below w db.sessions db.next_session) refl e;
  session_find_none =
      λ w db e. with_user-none db w (find_below w db.sessions db.next_session) refl e;
  user_create_ok = λ d db db' u e.
      subst (Made d db) e
        (create_user-Made d db (find_below (has_email d.email_hash) db.users db.next_user) refl);
  user_create_err = λ d db db' f e.
      subst (Made d db) e
        (create_user-Made d db (find_below (has_email d.email_hash) db.users db.next_user) refl);
  user_create_taken = λ d db i u there same.
      create_taken d db i u there same (find_below (has_email d.email_hash) db.users db.next_user)
        refl;
  user_create_free = λ d db free.
      create_free d db free (find_below (has_email d.email_hash) db.users db.next_user) refl;
  user_update_ok =
      λ i patch db db' u e. subst (Updated i patch db) e (user_update-Updated i patch db);
  user_update_err =
      λ i patch db db' f e. subst (Updated i patch db) e (user_update-Updated i patch db);
  user_update_total = λ i patch db old here keeps first last.
      let (db', e) = update_own i patch db old keeps here (db.users i) refl in
      (
        old.updated_at + 1,
        db',
        unchecked (is_null patch.first_name_enc) (is_null patch.last_name_enc)
              (err (prisma validation), db) (update_user patch i db (db.users i) refl) first last
            ∙ e,
      );
  user_update_taken = λ i j patch db old v here there takes differs e.
      ap
        (λ b. if b then (err (prisma validation), db) else update_user patch i db (db.users i) refl)
        e
      ∙ update_taken i j patch db old v here there takes differs (db.users i) refl;
  user_update_null = λ i patch db e.
      ap
        (λ b. if b then (err (prisma validation), db) else update_user patch i db (db.users i) refl)
        e;
  user_update_missing = λ i patch db gone e.
      ap
        (λ b. if b then (err (prisma validation), db) else update_user patch i db (db.users i) refl)
        e
      ∙ update_missing i patch db gone (db.users i) refl;
  user_delete_ok = λ i db db' u e. subst (Deleted i db) e (delete_user-Deleted i db (db.users i));
  user_delete_total = delete_user_total;
  session_create_ok =
      λ d db db' s e. subst (Opened d db) e (create_session-Opened d db (db.users d.user_id) refl);
  session_create_err =
      λ d db db' f e. subst (Opened d db) e (create_session-Opened d db (db.users d.user_id) refl);
  session_create_total =
      λ d db u mine free. create_session_total d db u mine free (db.users d.user_id) refl;
  session_revoke = λ w t db j. refl;
  user_revoke = λ w t db j. refl;
  count_revoke = λ w t db i only. count_revoke w db i only;
}
