-- ===== src/Prisma/Memory/Sessions.antt =====
-- The session calls of the database in memory.
use mathlib.Core.Path.{subst}
use baja_valle_service.Prelude.{
  ℕ, zero, suc, ◌≡◌, ◌≢◌, refl, sym, ap, ◌∙◌, Bool, true, false, Option, none, some, inl, inr,
  arith, ◌==◌, ==_iff, if◌then◌else◌, Bool-cases, Option-cases, some_inj, ltb,
}
use baja_valle_service.Text.Laws.{text_eq_iff}
use baja_valle_service.Exec.{Result, ok, err}
use baja_valle_service.Prisma.{User, Session, SessionData, new_session}
use baja_valle_service.Prisma.Laws.{count_if, unless_owned}
use baja_valle_service.Prisma.Memory.Find.{
  none-some, nothing_above, find_below, find_below-none, find_below-some,
}
use baja_valle_service.Prisma.Memory.{Db, drop_user, add_session}
use baja_valle_service.Prisma.Memory.Calls.{
  delete_user, write_session, create_session, beside, with_user, count_below, has_token,
}

abbrev pub Deleted : ℕ → Db → Result User × Db → Type 0
Deleted i db (err e, db') = Unit
Deleted i db (ok u, db') =
    ((j : ℕ) → db'.users j ≡ (if i == j then none else db.users j))
    × ((j : ℕ) → db'.sessions j ≡ unless_owned i (db.sessions j))

pub delete_user-Deleted :
    (i : ℕ) (db : Db) (found : Option User) → Deleted i db (delete_user i db found)
unfolding drop_user
delete_user-Deleted i db none = tt
delete_user-Deleted i db (some u) = (λ j. refl, λ j. refl)

pub delete_user_total :
    (i : ℕ) (db : Db) (u : User)
    → db.users i ≡ some u
    → (db' : Db) × (delete_user i db (db.users i) ≡ (ok u, db'))
delete_user_total i db u here = (drop_user i db, ap (delete_user i db) here)

abbrev pub Opened : SessionData → Db → Result Session × Db → Type 0
Opened d db (err e, db') = db' ≡ db
Opened d db (ok s, db') =
    (s ≡ new_session d s.id s.created_at)
    × (db.sessions s.id ≡ none)
    × ((j : ℕ) → db'.sessions j ≡ (if s.id == j then some s else db.sessions j))
    × ((j : ℕ) → db'.users j ≡ db.users j)

write_session-Opened :
    (d : SessionData) (u : User) (db : Db) (mine : db.users d.user_id ≡ some u)
    (found : Option Session)
    (e : find_below (has_token d.token_hash) db.sessions db.next_session ≡ found)
    → Opened d db (write_session d u db mine found e)
unfolding add_session
write_session-Opened d u db mine (some s) e = refl
write_session-Opened d u db mine none e =
    (refl, nothing_above db.sessions db.next_session db.session_table.below, λ j. refl, λ j. refl)

pub create_session-Opened :
    (d : SessionData) (db : Db) (found : Option User) (e : db.users d.user_id ≡ found)
    → Opened d db (create_session d db found e)
create_session-Opened d db none e = refl
create_session-Opened d db (some u) e =
    write_session-Opened d u db e (find_below (has_token d.token_hash) db.sessions db.next_session)
      refl

write_session_total :
    (d : SessionData) (u : User) (db : Db) (mine : db.users d.user_id ≡ some u)
    → ((i : ℕ) (s : Session) → db.sessions i ≡ some s → s.token_hash ≢ d.token_hash)
    → (found : Option Session)
      (e : find_below (has_token d.token_hash) db.sessions db.next_session ≡ found)
    → (s : Session) × (db' : Db) × (write_session d u db mine found e ≡ (ok s, db'))
write_session_total d u db mine free none e = (_, _, refl)
write_session_total d u db mine free (some s) e =
    let (i, there, hit) =
      find_below-some (has_token d.token_hash) db.sessions db.next_session s e in
    elim (free i s there ((text_eq_iff s.token_hash d.token_hash).0 hit)) [ ]

pub create_session_total :
    (d : SessionData) (db : Db) (u : User)
    → db.users d.user_id ≡ some u
    → ((i : ℕ) (s : Session) → db.sessions i ≡ some s → s.token_hash ≢ d.token_hash)
    → (found : Option User) (e : db.users d.user_id ≡ found)
    → (s : Session) × (db' : Db) × (create_session d db found e ≡ (ok s, db'))
create_session_total d db u mine free none e = elim (none-some (sym e ∙ mine)) [ ]
create_session_total d db u mine free (some v) e =
    write_session_total d v db e free
      (find_below (has_token d.token_hash) db.sessions db.next_session) refl

beside-some :
    (s t : Session) (u : User) (o : Option User) → beside t o ≡ some (s, u) → (t ≡ s) × (o ≡ some u)
beside-some s t u none e = cc
beside-some s t u (some v) e =
    let same = some_inj e in
    (ap (λ (p : Session × User). p.0) same, ap (λ (p : Session × User). some p.1) same)

pub with_user-some :
    (db : Db) (w : Session → Bool) (s : Session) (u : User) (found : Option Session)
    → find_below w db.sessions db.next_session ≡ found
    → with_user db.users found ≡ some (s, u)
    → (db.sessions s.id ≡ some s) × (w s ≡ true) × (db.users s.user_id ≡ some u)
with_user-some db w s u none e h = cc
with_user-some db w s u (some t) e h =
    let (i, there, hit) = find_below-some w db.sessions db.next_session t e in
    let (same, mine) = beside-some s t u (db.users t.user_id) h in
    subst
      (λ (x : Session). (db.sessions x.id ≡ some x) × (w x ≡ true) × (db.users x.user_id ≡ some u))
      same (ap db.sessions (db.session_table.at_id i t there) ∙ there, hit, mine)

pub with_user-none :
    (db : Db) (w : Session → Bool) (found : Option Session)
    → find_below w db.sessions db.next_session ≡ found
    → with_user db.users found ≡ none
    → (i : ℕ) (s : Session) → db.sessions i ≡ some s
    → w s ≡ false
with_user-none db w none e h i s there =
    find_below-none w db.sessions db.next_session e i s (db.session_table.below i s there) there
with_user-none db w (some t) e h i s there =
    let (j, found, _) = find_below-some w db.sessions db.next_session t e in
    let (u, mine) = db.owner j t found in
    let gone : ◌≡◌ {A = Option (Session × User)} (some (t, u)) none =
      sym (ap (beside t) mine) ∙ h in
    cc

count_if_other :
    (w : Session → Bool) (i j : ℕ) (o : Option Session)
    → ((s : Session) → w s ≡ true → s.id ≡ i)
    → ((s : Session) → o ≡ some s → s.id ≡ j)
    → i ≢ j
    → count_if w o ≡ 0
count_if_other w i j none only at differs = refl
count_if_other w i j (some s) only at differs = elim (Bool-cases (w s)) [
  | inl hit ↦ let a = only s hit in let b = at s refl in ground arith
  | inr miss ↦ ground arith
]

count_below_one :
    (w : Session → Bool) (f : ℕ → Option Session) (i n : ℕ)
    → ((s : Session) → w s ≡ true → s.id ≡ i)
    → ((j : ℕ) (s : Session) → f j ≡ some s → s.id ≡ j)
    → count_below w f n ≡ (if ltb i n then count_if w (f i) else 0)
unfolding count_below
count_below_one w f i zero only at = ground arith
count_below_one w f i (suc n) only at =
    let ih = count_below_one w f i n only at in
    elim (Bool-cases (i == n)) [
      | inl here ↦
          let same = ap (λ k. count_if w (f k)) ((==_iff i n).0 here) in ground (arith, ==_iff i n)
      | inr there ↦
          let zero = count_if_other w i n (f n) only (at n) (ground (arith, ==_iff i n)) in
          ground (arith, ==_iff i n)
    ]

pub count_revoke :
    (w : Session → Bool) (db : Db) (i : ℕ)
    → ((s : Session) → w s ≡ true → s.id ≡ i)
    → count_below w db.sessions db.next_session ≡ count_if w (db.sessions i)
count_revoke w db i only =
    let count = count_below_one w db.sessions i db.next_session only db.session_table.at_id in
    elim (Option-cases (db.sessions i)) [
      | inl gone ↦ let none_here = ap (count_if w) gone in ground arith
      | inr (s, there) ↦ let h = db.session_table.below i s there in ground arith
    ]
