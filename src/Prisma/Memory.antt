-- ===== src/Prisma/Memory.antt =====
-- A database in memory that meets the laws of `Prisma/Laws.antt`: the instance of the witnesses. It
-- models no code of the repository.
pub mod Find
pub mod Table
pub mod Calls
pub mod Users
pub mod Sessions
pub mod Laws
use baja_valle_service.Prelude.{
  ℕ, zero, suc, ◌+◌, ◌<◌, ◌≡◌, ◌≢◌, refl, sym, ap, ◌∙◌, Bool, true, false, ◌&&◌, ◌||◌, Option, none,
  some, inl, inr, arith, ◌==◌, ==_iff, if◌then◌else◌, Bool-cases, Option-cases, some_inj, is_some,
}
use baja_valle_service.Text.{Text, text_eq}
use baja_valle_service.Text.Laws.{text_eq_iff}
use baja_valle_service.Exec.{
  Failure, prisma, p2002, p2025, validation, other, Result, ok, err, Exec,
}
use baja_valle_service.Prisma.{
  User, Session, UserData, UserPatch, SessionData, new_user, new_session, apply_patch, is_null,
  Prisma,
}
use baja_valle_service.Prisma.Laws.{revoke_if, count_if, unless_owned}
use baja_valle_service.Prisma.Memory.Find.{find_below, find_below-none, find_below-some}
use baja_valle_service.Prisma.Memory.Table.{put, put-inv, IsTable, IsTable-narrow, IsTable-put}

abbrev pub user_key : User → Text
user_key u = u.email_hash

abbrev pub session_key : Session → Text
session_key s = s.token_hash

pub record Db : Type 0 where
  pub next_user : ℕ
  pub next_session : ℕ
  pub users : ℕ → Option User
  pub sessions : ℕ → Option Session
  pub user_table : IsTable (λ u. u.id) user_key next_user users
  pub session_table : IsTable (λ s. s.id) session_key next_session sessions
  pub owner : (i : ℕ) (s : Session) → sessions i ≡ some s → (u : User) × (users s.user_id ≡ some u)

pub empty-IsTable : {Row : Type 0} (id : Row → ℕ) (key : Row → Text) → IsTable id key 0 (λ i. none)
empty-IsTable id key = record {
  below = λ i r e. cc;
  at_id = λ i r e. cc;
  unique = λ i j r s e e' k. cc;
}

pub no_owner :
    (i : ℕ) (s : Session)
    → ◌≡◌ {A = Option Session} none (some s)
    → (u : User) × (◌≡◌ {A = Option User} none (some u))
no_owner i s e = cc

abbrev pub empty : Db
empty = record {
  next_user = 0;
  next_session = 0;
  users = λ i. none;
  sessions = λ i. none;
  user_table = empty-IsTable (λ u. u.id) user_key;
  session_table = empty-IsTable (λ s. s.id) session_key;
  owner = no_owner;
}

-- No row below the bound has the key, so none has.
pub free_key :
    {Row : Type 0} (id : Row → ℕ) (key : Row → Text) (next : ℕ) (f : ℕ → Option Row) (k : Text)
    → IsTable id key next f
    → find_below (λ r. text_eq (key r) k) f next ≡ none
    → (j : ℕ) (r : Row) → f j ≡ some r
    → key r ≢ k
free_key id key next f k t unseen j r there same =
    let miss =
      find_below-none (λ r. text_eq (key r) k) f next unseen j r (t.below j r there) there in
    let hit = (text_eq_iff (key r) k).1 same in cc

pub put-some :
    {A : Type 0} (f : ℕ → Option A) (k i : ℕ) (a b : A)
    → f i ≡ some b
    → (c : A) × (put f k a i ≡ some c)
put-some f k i a b there = elim (Bool-cases (k == i)) [
  | inl same ↦ (a, ground arith)
  | inr differs ↦ (b, ground arith)
]

unfoldable pub add_user :
    (d : UserData) (db : Db)
    → ((j : ℕ) (u : User) → db.users j ≡ some u → u.email_hash ≢ d.email_hash)
    → Db
add_user d db free = record db {
  next_user = db.next_user + 1;
  users = put db.users db.next_user (new_user d db.next_user 0 0);
  user_table =
      IsTable-put (λ u. u.id) user_key db.next_user (db.next_user + 1) db.next_user db.users
        (new_user d db.next_user 0 0) db.user_table refl (omega arith) (λ i h. omega arith)
        (λ j u there same. elim (free j u there same) [ ]);
  owner = λ i s there.
      let (u, here) = db.owner i s there in
      put-some db.users db.next_user s.user_id (new_user d db.next_user 0 0) u here;
}

-- A row that an update writes: it sets a date that is new.
abbrev pub touched : UserPatch → User → User
touched patch u = apply_patch patch (u.updated_at + 1) u

-- A user in place of the one with its id.
unfoldable pub set_user :
    (u old : User) (db : Db)
    → db.users old.id ≡ some old
    → u.id ≡ old.id
    → ((j : ℕ) (v : User) → db.users j ≡ some v → v.email_hash ≡ u.email_hash → old.id ≡ j)
    → Db
set_user u old db there same free = record db {
  users = put db.users old.id u;
  user_table =
      IsTable-put (λ u. u.id) user_key db.next_user db.next_user old.id db.users u db.user_table
        same (db.user_table.below old.id old there) (λ i h. h) free;
  owner = λ i s here. let (v, e) = db.owner i s here in put-some db.users old.id s.user_id u v e;
}

-- A table without the row at an id.
abbrev pub drop : {A : Type 0} → (ℕ → Option A) → ℕ → ℕ → Option A
drop f k i = if k == i then none else f i

pub drop-inv :
    {A : Type 0} (f : ℕ → Option A) (k i : ℕ) (a : A)
    → drop f k i ≡ some a
    → (f i ≡ some a) × ((k == i) ≡ false)
drop-inv f k i a e = elim (Bool-cases (k == i)) [
  | inl same ↦ ground arith
  | inr differs ↦ (ground arith, differs)
]

pub still_there :
    {A : Type 0} (f : ℕ → Option A) (k i : ℕ) (a : A)
    → (i == k) ≡ false
    → f i ≡ some a
    → drop f k i ≡ some a
still_there f k i a differs there = elim (Bool-cases (k == i)) [
  | inl same ↦ ground (arith, ==_iff i k, ==_iff k i)
  | inr _ ↦ ground arith
]

pub unless_owned-inv :
    (k : ℕ) (o : Option Session) (s : Session)
    → unless_owned k o ≡ some s
    → (o ≡ some s) × ((s.user_id == k) ≡ false)
unless_owned-inv k none s e = cc
unless_owned-inv k (some r) s e = elim (Bool-cases (r.user_id == k)) [
  | inl same ↦ ground arith
  | inr differs ↦
      let same : r ≡ s = ground arith in
      (ap some same, ap (λ (x : Session). x.user_id == k) (sym same) ∙ differs)
]

unfoldable pub drop_user : ℕ → Db → Db
drop_user k db = record db {
  users = drop db.users k;
  sessions = λ i. unless_owned k (db.sessions i);
  user_table =
      IsTable-narrow (λ u. u.id) user_key db.next_user db.users (drop db.users k) db.user_table
        (λ i r e. (r, (drop-inv db.users k i r e).0, refl, refl));
  session_table =
      IsTable-narrow (λ s. s.id) session_key db.next_session db.sessions
        (λ i. unless_owned k (db.sessions i)) db.session_table
        (λ i r e. (r, (unless_owned-inv k (db.sessions i) r e).0, refl, refl));
  owner = λ i s e.
      let (there, differs) = unless_owned-inv k (db.sessions i) s e in
      let (u, here) = db.owner i s there in (u, still_there db.users k s.user_id u differs here);
}

unfoldable pub add_session :
    (d : SessionData) (u : User) (db : Db)
    → db.users d.user_id ≡ some u
    → ((j : ℕ) (s : Session) → db.sessions j ≡ some s → s.token_hash ≢ d.token_hash)
    → Db
add_session d u db mine free = record db {
  next_session = db.next_session + 1;
  sessions = put db.sessions db.next_session (new_session d db.next_session 0);
  session_table =
      IsTable-put (λ s. s.id) session_key db.next_session (db.next_session + 1) db.next_session
        db.sessions (new_session d db.next_session 0) db.session_table refl (omega arith)
        (λ i h. omega arith) (λ j s there same. elim (free j s there same) [ ]);
  owner = λ i s e.
      elim (put-inv db.sessions db.next_session i (new_session d db.next_session 0) s e) [
        | inl (_, new) ↦ (u, ap (λ (r : Session). db.users r.user_id) new ∙ mine)
        | inr (_, there) ↦ db.owner i s there
      ];
}

pub revoke_if-inv :
    (w : Session → Bool) (t : ℕ) (o : Option Session) (s : Session)
    → revoke_if w t o ≡ some s
    → (r : Session) × (o ≡ some r)
      × (s.id ≡ r.id)
      × (s.token_hash ≡ r.token_hash)
      × (s.user_id ≡ r.user_id)
revoke_if-inv w t none s e = cc
revoke_if-inv w t (some r) s e = elim (Bool-cases (w r)) [
  | inl hit ↦
      let same : record r { revoked_at = some t } ≡ s = ground arith in
      (
        r,
        refl,
        ap (λ (x : Session). x.id) (sym same),
        ap session_key (sym same),
        ap (λ (x : Session). x.user_id) (sym same),
      )
  | inr miss ↦
      let same : r ≡ s = ground arith in
      (
        r,
        refl,
        ap (λ (x : Session). x.id) (sym same),
        ap session_key (sym same),
        ap (λ (x : Session). x.user_id) (sym same),
      )
]

unfoldable pub revoke : (Session → Bool) → ℕ → Db → Db
revoke w t db = record db {
  sessions = λ i. revoke_if w t (db.sessions i);
  session_table =
      IsTable-narrow (λ s. s.id) session_key db.next_session db.sessions
        (λ i. revoke_if w t (db.sessions i)) db.session_table
        (λ i r e.
          let (old, there, id, key, _) = revoke_if-inv w t (db.sessions i) r e in
          (old, there, id, key));
  owner = λ i s e.
      let (old, there, _, _, mine) = revoke_if-inv w t (db.sessions i) s e in
      let (u, here) = db.owner i old there in (u, ap db.users mine ∙ here);
}
