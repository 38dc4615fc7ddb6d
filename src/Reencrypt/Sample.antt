-- ===== src/Reencrypt/Sample.antt =====
-- The pages of the database in memory. It models no code of the repository.
use baja_valle_service.Prelude.{
  ℕ, zero, suc, ◌+◌, ◌-◌, ◌≤◌, ◌<◌, ◌≡◌, ◌≢◌, refl, sym, ap, ◌∙◌, Option, none, some, List, [], ◌∷◌,
  inl, inr, arith, Bool-cases, Option-cases, ◌==◌, ==_iff, take,
}
use mathlib.Core.Path.{subst}
use baja_valle_service.Prisma.{User}
use baja_valle_service.Prisma.Memory.{Db}
use baja_valle_service.Reencrypt.{Pages, IsPage, behind}

-- The rows at so many ids from k on.
collect : (ℕ → Option User) → ℕ → ℕ → List User
collect row zero k = []
collect row (suc left) k = elim (row k) [
  | none ↦ collect row left (k + 1)
  | some u ↦ u ∷ collect row left (k + 1)
]

unfoldable pub memory_pages : Pages Db
unfolding collect
memory_pages = record {
  users_page =
      λ cursor size db. take size (collect db.users (db.next_user - behind cursor) (behind cursor));
}

IsPage-take :
    (row : ℕ → Option User) (k size : ℕ) (users : List User)
    → IsPage row k users
    → IsPage row k (take size users)
IsPage-take row k zero users page = tt
IsPage-take row k (suc size) [] page = tt
IsPage-take row k (suc size) (u ∷ users) (from, there, gap, page) =
    (from, there, gap, IsPage-take row (u.id + 1) size users page)

empty_range : (k j m : ℕ) → k ≤ j → j < m → m ≡ k → ⊥
empty_range k j m h l e = omega arith

take-cons-ne-nil : (size : ℕ) (u : User) (users : List User) → 1 ≤ size → take size (u ∷ users) ≢ []
take-cons-ne-nil zero u users h e = elim (empty_range 0 0 0 (omega arith) (omega arith) refl) [ ]
take-cons-ne-nil (suc size) u users h e = cc

-- An id without a row may be left out.
IsPage-skip :
    (row : ℕ → Option User) (k : ℕ) (users : List User)
    → row k ≡ none
    → IsPage row (k + 1) users
    → IsPage row k users
IsPage-skip row k [] gone page = tt
IsPage-skip row k (u ∷ users) gone (from, there, gap, page) = (
  omega arith,
  there,
  λ j h l. elim (Bool-cases (k == j)) [
    | inl same ↦ ap row (sym ((==_iff k j).0 same)) ∙ gone
    | inr other ↦ gap j (ground (arith, ==_iff k j)) l
  ],
  page,
)

module _ (row : ℕ → Option User) (id : (i : ℕ) (u : User) → row i ≡ some u → u.id ≡ i) where
  collect-IsPage : (left k : ℕ) → IsPage row k (collect row left k)
  unfolding collect
  collect-IsPage zero k = tt
  collect-IsPage (suc left) k = elim (Option-cases (row k)) [
    | inl gone ↦
        rw (gone, collect)
          (IsPage-skip row k (collect row left (k + 1)) gone (collect-IsPage left (k + 1)))
    | inr (u, there) ↦
        let at = id k u there in
        rw (there, collect)
          (
            omega arith,
            ap row at ∙ there,
            λ j h l. elim (empty_range k j u.id h l at) [ ],
            subst (λ m. IsPage row (m + 1) (collect row left (k + 1))) (sym at)
                (collect-IsPage left (k + 1)),
          )
  ]

-- A page without a user shows that no row is left.
collect-nil :
    (row : ℕ → Option User) (left k size : ℕ)
    → 1 ≤ size
    → take size (collect row left k) ≡ []
    → (j : ℕ) → k ≤ j
    → j < k + left
    → row j ≡ none
unfolding collect
collect-nil row zero k size h e j from to = elim (empty_range k j k from (omega arith) refl) [ ]
collect-nil row (suc left) k size h e j from to = elim (Option-cases (row k)) [
  | inl gone ↦ elim (Bool-cases (k == j)) [
    | inl same ↦ ap row (sym ((==_iff k j).0 same)) ∙ gone
    | inr other ↦
        collect-nil row left (k + 1) size h (rw (gone, collect) at e) j (ground (arith, ==_iff k j))
          (omega arith)
  ]
  | inr (u, there) ↦
      absurd (take-cons-ne-nil size u (collect row left (k + 1)) h (rw (there, collect) at e))
]

pub memory_pages-IsPage :
    (cursor : Option ℕ) (size : ℕ) (db : Db)
    → IsPage db.users (behind cursor) (memory_pages.users_page cursor size db)
unfolding memory_pages
memory_pages-IsPage cursor size db =
    IsPage-take db.users (behind cursor) size _
      (collect-IsPage db.users db.user_table.at_id (db.next_user - behind cursor) (behind cursor))

pub memory_pages_last :
    (cursor : Option ℕ) (size : ℕ) (db : Db)
    → 1 ≤ size
    → memory_pages.users_page cursor size db ≡ []
    → (j : ℕ) → behind cursor ≤ j
    → db.users j ≡ none
unfolding memory_pages
memory_pages_last cursor size db h e j from = elim (Option-cases (db.users j)) [
  | inl gone ↦ gone
  | inr (u, there) ↦
      let below = db.user_table.below j u there in
      collect-nil db.users (db.next_user - behind cursor) (behind cursor) size h e j from
        (omega arith)
]
