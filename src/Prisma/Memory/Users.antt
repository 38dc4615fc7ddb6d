-- ===== src/Prisma/Memory/Users.antt =====
-- The user calls of the database in memory.
use mathlib.Core.Path.{subst}
use baja_valle_service.Prelude.{
  ℕ, ◌≡◌, ◌≢◌, refl, sym, ap, ◌∙◌, Bool, true, false, ◌||◌, Option, none, some, arith, ◌==◌, ==_iff,
  if◌then◌else◌, some_inj,
}
use baja_valle_service.Text.Laws.{text_eq_iff}
use baja_valle_service.Exec.{prisma, p2002, p2025, validation, Result, ok, err}
use baja_valle_service.Prisma.{User, UserData, UserPatch, new_user, apply_patch, is_null, get_or}
use baja_valle_service.Prisma.Memory.Find.{none-some, nothing_above, find_below, find_below-some}
use baja_valle_service.Prisma.Memory.{touched, Db, user_key, free_key, add_user, set_user}
use baja_valle_service.Prisma.Memory.Calls.{
  memory, create_user, write_user, update_user, has_email, rival, no_rival,
}

abbrev pub Made : UserData → Db → Result User × Db → Type 0
Made d db (err e, db') = db' ≡ db
Made d db (ok u, db') =
    (u ≡ new_user d u.id u.created_at u.updated_at)
    × (db.users u.id ≡ none)
    × ((j : ℕ) → db'.users j ≡ (if u.id == j then some u else db.users j))
    × ((j : ℕ) → db'.sessions j ≡ db.sessions j)

pub create_user-Made :
    (d : UserData) (db : Db) (found : Option User)
    (e : find_below (has_email d.email_hash) db.users db.next_user ≡ found)
    → Made d db (create_user d db found e)
unfolding add_user
create_user-Made d db (some u) e = refl
create_user-Made d db none e =
    (refl, nothing_above db.users db.next_user db.user_table.below, λ j. refl, λ j. refl)

pub create_taken :
    (d : UserData) (db : Db) (i : ℕ) (u : User)
    → db.users i ≡ some u
    → u.email_hash ≡ d.email_hash
    → (found : Option User) (e : find_below (has_email d.email_hash) db.users db.next_user ≡ found)
    → create_user d db found e ≡ (err (prisma p2002), db)
create_taken d db i u there same (some v) e = refl
create_taken d db i u there same none e =
    elim (free_key (λ u. u.id) user_key db.next_user db.users d.email_hash db.user_table e i u there
      same) [ ]

pub create_free :
    (d : UserData) (db : Db)
    → ((i : ℕ) (u : User) → db.users i ≡ some u → u.email_hash ≢ d.email_hash)
    → (found : Option User) (e : find_below (has_email d.email_hash) db.users db.next_user ≡ found)
    → (u : User) × (db' : Db) × (create_user d db found e ≡ (ok u, db'))
create_free d db free none e = (_, _, refl)
create_free d db free (some v) e =
    let (i, there, hit) = find_below-some (has_email d.email_hash) db.users db.next_user v e in
    elim (free i v there ((text_eq_iff v.email_hash d.email_hash).0 hit)) [ ]

abbrev pub Updated : ℕ → UserPatch → Db → Result User × Db → Type 0
Updated i patch db (err e, db') = db' ≡ db
Updated i patch db (ok u, db') =
    (old : User) × (db.users i ≡ some old)
    × (u ≡ apply_patch patch u.updated_at old)
    × ((j : ℕ) → db'.users j ≡ (if i == j then some u else db.users j))
    × ((j : ℕ) → db'.sessions j ≡ db.sessions j)

write_user-Updated :
    (i : ℕ) (patch : UserPatch) (old : User) (db : Db)
    → db.users i ≡ some old
    → (there : db.users old.id ≡ some old)
    → (found : Option User)
      (e : find_below (rival (touched patch old)) db.users db.next_user ≡ found)
    → Updated i patch db (write_user (touched patch old) old db there refl found e)
unfolding set_user
write_user-Updated i patch old db here there (some v) e = refl
write_user-Updated i patch old db here there none e = (
  old,
  here,
  refl,
  λ j.
      ap (λ k. if k == j then some (touched patch old) else db.users j)
        (db.user_table.at_id i old here),
  λ j. refl,
)

update_user-Updated :
    (i : ℕ) (patch : UserPatch) (db : Db) (found : Option User) (e : db.users i ≡ found)
    → Updated i patch db (update_user patch i db found e)
update_user-Updated i patch db none e = refl
update_user-Updated i patch db (some old) e =
    write_user-Updated i patch old db e (ap db.users (db.user_table.at_id i old e) ∙ e)
      (find_below (rival (touched patch old)) db.users db.next_user) refl

checked-Updated :
    (i : ℕ) (patch : UserPatch) (db : Db) (b : Bool) (r : Result User × Db)
    → Updated i patch db r
    → Updated i patch db (if b then (err (prisma validation), db) else r)
checked-Updated i patch db true r h = refl
checked-Updated i patch db false r h = h

pub user_update-Updated :
    (i : ℕ) (patch : UserPatch) (db : Db) → Updated i patch db (memory.user_update i patch db)
user_update-Updated i patch db =
    checked-Updated i patch db (is_null patch.first_name_enc || is_null patch.last_name_enc)
      (update_user patch i db (db.users i) refl) (update_user-Updated i patch db (db.users i) refl)

-- A write that keeps the email meets no rival, and one that takes another's meets one.
write_own :
    (patch : UserPatch) (old : User) (db : Db)
    → patch.email_hash ≡ none
    → (there : db.users old.id ≡ some old)
    → (found : Option User)
      (e : find_below (rival (touched patch old)) db.users db.next_user ≡ found)
    → (db' : Db) × (write_user (touched patch old) old db there refl found e
        ≡ (ok (touched patch old), db'))
write_own patch old db keeps there none e = (_, refl)
write_own patch old db keeps there (some v) e =
    let (i, here, hit) = find_below-some (rival (touched patch old)) db.users db.next_user v e in
    let key = ap (λ o. get_or o old.email_hash) keeps in
    let at = db.user_table.at_id i v here in
    let same = db.user_table.unique i old.id v old here there in
    ground (arith, text_eq_iff v.email_hash (touched patch old).email_hash, ==_iff v.id old.id)

write_taken :
    (patch : UserPatch) (old v : User) (j : ℕ) (db : Db)
    → db.users j ≡ some v
    → patch.email_hash ≡ some v.email_hash
    → old.id ≢ j
    → (there : db.users old.id ≡ some old)
    → (found : Option User)
      (e : find_below (rival (touched patch old)) db.users db.next_user ≡ found)
    → write_user (touched patch old) old db there refl found e ≡ (err (prisma p2002), db)
write_taken patch old v j db here takes differs there (some _) e = refl
write_taken patch old v j db here takes differs there none e =
    let key = ap (λ o. get_or o old.email_hash) takes in
    elim (differs (no_rival (touched patch old) db e j v here (sym key))) [ ]

pub update_own :
    (i : ℕ) (patch : UserPatch) (db : Db) (old : User)
    → patch.email_hash ≡ none
    → db.users i ≡ some old
    → (found : Option User) (e : db.users i ≡ found)
    → (db' : Db) × (update_user patch i db found e ≡ (ok (touched patch old), db'))
update_own i patch db old keeps here none e = elim (none-some (sym e ∙ here)) [ ]
update_own i patch db old keeps here (some v) e =
    subst (λ x. (db' : Db) × (update_user patch i db (some v) e ≡ (ok (touched patch x), db')))
      (some_inj (sym e ∙ here))
      (write_own patch v db keeps (ap db.users (db.user_table.at_id i v e) ∙ e)
        (find_below (rival (touched patch v)) db.users db.next_user) refl)

pub update_taken :
    (i j : ℕ) (patch : UserPatch) (db : Db) (old v : User)
    → db.users i ≡ some old
    → db.users j ≡ some v
    → patch.email_hash ≡ some v.email_hash
    → i ≢ j
    → (found : Option User) (e : db.users i ≡ found)
    → update_user patch i db found e ≡ (err (prisma p2002), db)
update_taken i j patch db old v here there takes differs none e = cc
update_taken i j patch db old v here there takes differs (some w) e =
    let at = db.user_table.at_id i w e in
    write_taken patch w v j db there takes (ground arith) (ap db.users at ∙ e)
      (find_below (rival (touched patch w)) db.users db.next_user) refl

pub update_missing :
    (i : ℕ) (patch : UserPatch) (db : Db)
    → db.users i ≡ none
    → (found : Option User) (e : db.users i ≡ found)
    → update_user patch i db found e ≡ (err (prisma p2025), db)
update_missing i patch db gone none e = refl
update_missing i patch db gone (some v) e = cc

pub unchecked :
    {A : Type 0} (a b : Bool) (x y : A) → a ≡ false → b ≡ false → (if a || b then x else y) ≡ y
unchecked a b x y e f = ground arith
