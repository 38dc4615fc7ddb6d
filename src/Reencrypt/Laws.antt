-- ===== src/Reencrypt/Laws.antt =====
-- The script comes to its end, and then every user is under the current key.
use mathlib.Core.Path.{subst}
use baja_valle_service.Prelude.{
  ℕ, zero, suc, ◌+◌, ◌-◌, ◌≤◌, ◌<◌, ◌≡◌, refl, ◌∙◌, Option, none, some, List, [], ◌∷◌, inl, inr,
  arith, Bool-cases, ltb,
}
use baja_valle_service.Prisma.{User}
use baja_valle_service.Exec.{ok}
use baja_valle_service.Exec.Laws.{>>=-ok}
use baja_valle_service.App.{App, AppLaws, State}
use baja_valle_service.Reencrypt.{
  batch, Pages, PagesLaws, IsPage, behind, last_id, reencrypt_users, main_page, main_loop,
}
use baja_valle_service.Reencrypt.Users.{IsReadableUser, IsRenewedUser}
use baja_valle_service.Reencrypt.Rows.{
  next, next-last_id, IsPage-same, bound-zero, IsRow, IsDone, IsRow-ahead, reencrypt_users_lem,
}

module _ (app : App) (laws : AppLaws app) where
  -- What the whole script has done to the rows.
  pub record IsReencryption (row : ℕ → Option User) (db db' : app.prisma.Db) : Type 0 where
    pub renewed :
        (i : ℕ) (u : User)
        → row i ≡ some u
        → (u' : User) × (app.prisma.user db' i ≡ some u') × IsRenewedUser app laws u u'
    pub absent : (i : ℕ) → row i ≡ none → app.prisma.user db' i ≡ none
    pub sessions : (j : ℕ) → app.prisma.session db' j ≡ app.prisma.session db j

  IsRow-end :
      (k i : ℕ) (u : User) (now : Option User)
      → (k ≤ i → now ≡ none)
      → IsRow app laws k i (some u) now
      → (u' : User) × (now ≡ some u') × IsRenewedUser app laws u u'
  unfolding IsRow
  IsRow-end k i u now none_left (below, ahead) = elim (Bool-cases (ltb i k)) [
    | inl early ↦ below (ground arith)
    | inr late ↦ let gone = none_left (ground arith) in let here = ahead (ground arith) in cc
  ]

  start-IsRow : (i : ℕ) (o now : Option User) → now ≡ o → IsRow app laws 0 i o now
  unfolding IsRow
  start-IsRow i none now e = e
  start-IsRow i (some u) now e = (λ h. absurd (bound-zero i h), λ h. e)

  -- Behind the last page, all is done.
  IsDone-end :
      (row : ℕ → Option User) (k : ℕ) (db : app.prisma.Db)
      → ((j : ℕ) → k ≤ j → app.prisma.user db j ≡ none)
      → IsDone app laws k row db
      → IsReencryption row db db
  unfolding IsRow
  IsDone-end row k db none_left done = record {
    renewed = λ i u e.
        IsRow-end k i u (app.prisma.user db i) (none_left i)
          (subst (λ o. IsRow app laws k i o (app.prisma.user db i)) e (done.rows i));
    absent = λ i e. subst (λ o. IsRow app laws k i o (app.prisma.user db i)) e (done.rows i);
    sessions = λ j. refl;
  }

le-next :
    (row : ℕ → Option User) (k : ℕ) (users : List User) → IsPage row k users → k ≤ next k users
unfolding next
le-next row k [] page = omega arith
le-next row k (u ∷ users) (from, there, gap, page) =
    let rest = le-next row (u.id + 1) users page in omega arith

next-le :
    (row : ℕ → Option User) (n k : ℕ) (users : List User)
    → ((i : ℕ) (u : User) → row i ≡ some u → i < n)
    → IsPage row k users
    → k ≤ n
    → next k users ≤ n
unfolding next
next-le row n k [] bound page h = h
next-le row n k (u ∷ users) bound (from, there, gap, page) h =
    let below = bound u.id u there in next-le row n (u.id + 1) users bound page (omega arith)

module _ (app : App) (laws : AppLaws app) (pages : Pages app.prisma.Db)
    (pages_laws : PagesLaws app pages) (row : ℕ → Option User) (n : ℕ)
    (bound : (i : ℕ) (u : User) → row i ≡ some u → i < n)
    (readable : (i : ℕ) (u : User) → row i ≡ some u → IsReadableUser app laws u)
    (id : (i : ℕ) (u : User) → row i ≡ some u → u.id ≡ i) where
  -- The loop, from a cursor with so much fuel, comes to its end and has reencrypted all.
  abbrev Ends : ℕ → Option ℕ → ℕ → State app → Type 0
  Ends fuel cursor updated w =
      (count : ℕ) × (w' : State app) × (main_loop app pages fuel cursor updated w
        ≡ (ok (some count), w'))
      × IsReencryption app laws row w.db w'.db

  main_page_lem :
      (fuel k updated : ℕ) (w : State app) (users : List User)
      → ((cursor : Option ℕ) (updated : ℕ) (v : State app)
          → n - behind cursor < fuel
          → IsDone app laws (behind cursor) row v.db
          → Ends fuel cursor updated v)
      → n - k < suc fuel
      → IsDone app laws k row w.db
      → IsPage row k users
      → (users ≡ [] → (j : ℕ) → k ≤ j → app.prisma.user w.db j ≡ none)
      → (count : ℕ) × (w' : State app) × (main_page app (main_loop app pages fuel) users updated w
          ≡ (ok (some count), w'))
        × IsReencryption app laws row w.db w'.db
  unfolding main_page next
  main_page_lem fuel k updated w [] later enough done page nothing =
      (updated, w, refl, IsDone-end app laws row k w.db (nothing refl) done)
  main_page_lem fuel k updated w (u ∷ users) later enough done (from, there, gap, page) nothing =
      let (count, v, first, moved, same) =
        reencrypt_users_lem app laws row (u ∷ users) k updated w readable id
          (from, there, gap, page) done in
      let upto = next-last_id u users in
      let on = le-next row (u.id + 1) users page in
      let within = next-le row n (u.id + 1) users bound page (omega (arith, bound u.id u there)) in
      let (total, w', rest, all) =
        later (some (last_id u users)) count v (omega arith)
          (subst (λ m. IsDone app laws m row v.db) upto moved) in
      (
        total,
        w',
        >>=-ok (reencrypt_users app (u ∷ users) updated) _ first ∙ rest,
        record {
          renewed = all.renewed;
          absent = all.absent;
          sessions = λ j. all.sessions j ∙ same j;
        },
      )

  -- It does so if the fuel is more than the ids that are left.
  main_loop_lem :
      (fuel : ℕ) (cursor : Option ℕ) (updated : ℕ) (w : State app)
      → n - behind cursor < fuel
      → IsDone app laws (behind cursor) row w.db
      → Ends fuel cursor updated w
  unfolding main_loop
  main_loop_lem zero cursor updated w enough done = absurd (bound-zero (n - behind cursor) enough)
  main_loop_lem (suc fuel) cursor updated w enough done =
      main_page_lem fuel (behind cursor) updated w (pages.users_page cursor batch w.db)
        (main_loop_lem fuel) enough done
        (IsPage-same (app.prisma.user w.db) row (behind cursor) (pages.users_page cursor batch w.db)
          (λ j h.
            IsRow-ahead app laws (behind cursor) j (row j) (app.prisma.user w.db j) (done.rows j) h)
          (pages_laws.page cursor batch w.db))
        (λ nil. pages_laws.last cursor batch w.db (omega arith) nil)

module _ (app : App) (laws : AppLaws app) (pages : Pages app.prisma.Db)
    (pages_laws : PagesLaws app pages) where
  -- If the ids of the users are below a number, and the fields of every user decrypt, the loop ends
  -- with that much fuel and one more; then every field of every user decrypts to the same text under
  -- the current key, and nothing else has changed in the rows of users but the dates of their
  -- updates, and nothing in the sessions.
  pub main_loop-IsReencryption :
      (n : ℕ) (w : State app)
      → ((i : ℕ) (u : User) → app.prisma.user w.db i ≡ some u → i < n)
      → ((i : ℕ) (u : User) → app.prisma.user w.db i ≡ some u → IsReadableUser app laws u)
      → (count : ℕ) × (w' : State app) × (main_loop app pages (n + 1) none 0 w
          ≡ (ok (some count), w'))
        × IsReencryption app laws (app.prisma.user w.db) w.db w'.db
  unfolding IsRow
  main_loop-IsReencryption n w bound readable =
      main_loop_lem app laws pages pages_laws (app.prisma.user w.db) n bound readable
        (laws.prisma_laws.user_id w.db) (n + 1) none 0 w (omega arith)
        (record {
          rows = λ i. start-IsRow app laws i (app.prisma.user w.db i) (app.prisma.user w.db i) refl;
        })
