-- ===== src/Reencrypt/Rows.antt =====
-- The rows while the script runs: those behind the bound are renewed, the others as they were.
use mathlib.Core.Path.{subst}
use baja_valle_service.Prelude.{
  ℕ, ◌+◌, ◌≤◌, ◌<◌, ◌≡◌, ◌≢◌, refl, sym, ap, ◌∙◌, Option, none, some, List, [], ◌∷◌, inl, inr,
  arith, Bool-cases, some_inj, ◌==◌, ==_iff, ltb,
}
use baja_valle_service.Prisma.{User}
use baja_valle_service.Exec.{ok}
use baja_valle_service.Exec.Laws.{>>=-ok}
use baja_valle_service.App.{App, AppLaws, State}
use baja_valle_service.Reencrypt.{IsPage, last_id, reencrypt_user, reencrypt_users}
use baja_valle_service.Reencrypt.Users.{IsReadableUser, IsRenewedUser, Renews, reencrypt_user_lem}

-- The least id behind the users of a page that was read from an id on.
unfoldable pub next : ℕ → List User → ℕ
next k [] = k
next k (u ∷ users) = next (u.id + 1) users

pub next-last_id : (u : User) (users : List User) → next (u.id + 1) users ≡ last_id u users + 1
unfolding next last_id
next-last_id u [] = refl
next-last_id u (v ∷ users) = next-last_id v users

pub IsPage-same :
    (row row' : ℕ → Option User) (k : ℕ) (users : List User)
    → ((j : ℕ) → k ≤ j → row j ≡ row' j)
    → IsPage row k users
    → IsPage row' k users
IsPage-same row row' k [] same page = tt
IsPage-same row row' k (u ∷ users) same (from, there, gap, page) = (
  from,
  sym (same u.id from) ∙ there,
  λ j h l. sym (same j h) ∙ gap j h l,
  IsPage-same row row' (u.id + 1) users (λ j h. same j (omega arith)) page,
)

pub bound-zero : (m : ℕ) → m < 0 → ⊥
bound-zero m h = omega arith

bound-absurd : (m i : ℕ) → m ≡ i → m + 1 ≤ i → ⊥
bound-absurd m i e h = omega arith

module _ (app : App) (laws : AppLaws app) where
  -- A row of the start and the row now, when the ids below k are done.
  unfoldable pub IsRow : ℕ → ℕ → Option User → Option User → Type 0
  IsRow k i none now = now ≡ none
  IsRow k i (some u) now =
      (i < k → (u' : User) × (now ≡ some u') × IsRenewedUser app laws u u') × (k ≤ i → now ≡ some u)

  -- The state of the loop, since the rows were as given.
  pub record IsDone (k : ℕ) (row : ℕ → Option User) (db : app.prisma.Db) : Type 0 where
    pub rows : (i : ℕ) → IsRow k i (row i) (app.prisma.user db i)

  pub IsRow-ahead : (k i : ℕ) (o now : Option User) → IsRow k i o now → k ≤ i → now ≡ o
  unfolding IsRow
  IsRow-ahead k i none now h l = h
  IsRow-ahead k i (some u) now (_, same) l = same l

  -- A user that is renewed moves the bound behind it.
  IsRow-Renews :
      (k i : ℕ) (u : User) (o : Option User) (db db' : app.prisma.Db)
      → Renews app laws u db db'
      → k ≤ u.id
      → (i ≡ u.id → o ≡ some u)
      → (k ≤ i → i < u.id → o ≡ none)
      → IsRow k i o (app.prisma.user db i)
      → IsRow (u.id + 1) i o (app.prisma.user db' i)
  unfolding IsRow
  IsRow-Renews k i u none db db' renews from at gap h = elim (Bool-cases (u.id == i)) [
    | inl same ↦ let wrong = at (sym ((==_iff u.id i).0 same)) in cc
    | inr other ↦ renews.others i (λ e. ground (arith, ==_iff u.id i)) ∙ h
  ]
  IsRow-Renews k i u (some v) db db' renews from at gap (below, ahead) =
      elim (Bool-cases (u.id == i)) [
        | inl same ↦
            let here : u.id ≡ i = (==_iff u.id i).0 same in
            let equal : v ≡ u = some_inj (at (sym here)) in
            (
              λ h. (
                renews.user,
                ap (app.prisma.user db') (sym here) ∙ renews.row,
                subst (λ x. IsRenewedUser app laws x renews.user) (sym equal) renews.renewed,
              ),
              λ h. elim (bound-absurd u.id i here h) [ ],
            )
        | inr other ↦
            let kept = renews.others i (λ e. ground (arith, ==_iff u.id i)) in
            (
              λ h. elim (Bool-cases (ltb i k)) [
                | inl early ↦
                    let (u', there, renewed) = below (ground arith) in (u', kept ∙ there, renewed)
                | inr late ↦
                    let differs : i ≢ u.id = λ e. ground (arith, ==_iff u.id i) in
                    let wrong = gap (ground arith) (omega arith) in cc
              ],
              λ h. kept ∙ ahead (omega arith),
            )
      ]

  -- The users of a page are renewed, one after the other.
  pub reencrypt_users_lem :
      (row : ℕ → Option User) (users : List User) (k updated : ℕ) (w : State app)
      → ((i : ℕ) (u : User) → row i ≡ some u → IsReadableUser app laws u)
      → ((i : ℕ) (u : User) → row i ≡ some u → u.id ≡ i)
      → IsPage row k users
      → IsDone k row w.db
      → (count : ℕ) × (w' : State app) × (reencrypt_users app users updated w ≡ (ok count, w'))
        × IsDone (next k users) row w'.db
        × ((j : ℕ) → app.prisma.session w'.db j ≡ app.prisma.session w.db j)
  unfolding reencrypt_users next
  reencrypt_users_lem row [] k updated w readable id page done = (updated, w, refl, done, λ j. refl)
  reencrypt_users_lem row (u ∷ users) k updated w readable id (from, there, gap, page) done =
      let now = IsRow-ahead k u.id (row u.id) _ (done.rows u.id) from ∙ there in
      let (count, v, first, renews) =
        reencrypt_user_lem app laws u updated w now (readable u.id u there) in
      let later : IsDone (u.id + 1) row v.db = record {
        rows = λ i.
            IsRow-Renews k i u (row i) w.db v.db renews from (λ e. ap row e ∙ there) (gap i)
              (done.rows i);
      } in
      let (total, w', others, end, sessions) =
        reencrypt_users_lem row users (u.id + 1) count v readable id page later in
      (
        total,
        w',
        >>=-ok (reencrypt_user app u updated) _ first ∙ others,
        end,
        λ j. sessions j ∙ renews.sessions j,
      )
