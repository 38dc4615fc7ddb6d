-- ===== src/Prisma/Memory/Find.antt =====
-- The search of a table that is a function, below a bound.
use baja_valle_service.Prelude.{
  ℕ, zero, suc, ◌<◌, ◌≡◌, ap, ◌==◌, ==_iff, Bool, true, false, Option, none, some, inl, inr, arith,
  if◌then◌else◌, Bool-cases, Option-cases,
}

module _ {ℓ} {A : Type ℓ} where
  -- An element that passes the test, or else the rest of the search.
  abbrev hit_or : (A → Bool) → Option A → Option A → Option A
  hit_or p none rest = rest
  hit_or p (some a) rest = if p a then some a else rest

  unfoldable pub find_below : (A → Bool) → (ℕ → Option A) → ℕ → Option A
  find_below p f zero = none
  find_below p f (suc n) = hit_or p (f n) (find_below p f n)

  hit_or-none : (p : A → Bool) (o rest : Option A) → hit_or p o rest ≡ none → rest ≡ none
  hit_or-none p none rest e = e
  hit_or-none p (some a) rest e = ground arith

  pub find_below-some :
      (p : A → Bool) (f : ℕ → Option A) (n : ℕ) (a : A)
      → find_below p f n ≡ some a
      → (i : ℕ) × (f i ≡ some a) × (p a ≡ true)
  unfolding find_below
  find_below-some p f zero a e = cc
  find_below-some p f (suc n) a e = elim (Option-cases (f n)) [
    | inl gone ↦ find_below-some p f n a (ground arith)
    | inr (b, there) ↦ elim (Bool-cases (p b)) [
      | inl hit ↦ (n, ground arith, ground arith)
      | inr miss ↦ find_below-some p f n a (ground arith)
    ]
  ]

  pub find_below-none :
      (p : A → Bool) (f : ℕ → Option A) (n : ℕ)
      → find_below p f n ≡ none
      → (i : ℕ) (a : A) → i < n
      → f i ≡ some a
      → p a ≡ false
  unfolding find_below
  find_below-none p f zero e i a h there = elim h [ ]
  find_below-none p f (suc n) e i a h there = elim (Bool-cases (i == n)) [
    | inl last ↦ ground (arith, ap f ((==_iff i n).0 last))
    | inr before ↦
        find_below-none p f n (ground (arith, hit_or-none p (f n) (find_below p f n))) i a
          (ground arith) there
  ]

pub none-some : {A : Type 0} {a : A} → none ≡ some a → ⊥
none-some e = cc

-- No row stands at the bound.
pub nothing_above :
    {A : Type 0} (f : ℕ → Option A) (n : ℕ) → ((i : ℕ) (a : A) → f i ≡ some a → i < n) → f n ≡ none
nothing_above f n below = elim (Option-cases (f n)) [
  | inl gone ↦ gone
  | inr (a, there) ↦ let h = below n a there in ground arith
]
