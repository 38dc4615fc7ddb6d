-- ===== src/Prisma/Memory/Table.antt =====
-- A table of rows with an id and a unique column, as a function of the id.
use baja_valle_service.Prelude.{
  ℕ, ◌<◌, ◌≡◌, ◌≢◌, sym, ap, ◌∙◌, Option, some, inl, inr, arith, ◌⊎◌, ◌==◌, ==_iff, if◌then◌else◌,
  Bool-cases,
}
use baja_valle_service.Text.{Text}

abbrev pub put {ℓ} : {A : Type ℓ} → (ℕ → Option A) → ℕ → A → ℕ → Option A
put f k a i = if k == i then some a else f i

-- What a row of the table behind a `put` is.
pub put-inv {ℓ} :
    {A : Type ℓ} (f : ℕ → Option A) (k i : ℕ) (a b : A)
    → put f k a i ≡ some b
    → ((k ≡ i) × (b ≡ a)) ⊎ ((k ≢ i) × (f i ≡ some b))
put-inv f k i a b e = elim (Bool-cases (k == i)) [
  | inl same ↦ inl ((==_iff k i).0 same, ground arith)
  | inr other ↦ inr (ground arith, ground arith)
]

module _ {Row : Type 0} (id : Row → ℕ) (key : Row → Text) where
  pub record IsTable (next : ℕ) (f : ℕ → Option Row) : Type 0 where
    pub below : (i : ℕ) (r : Row) → f i ≡ some r → i < next
    pub at_id : (i : ℕ) (r : Row) → f i ≡ some r → id r ≡ i
    pub unique : (i j : ℕ) (r s : Row) → f i ≡ some r → f j ≡ some s → key r ≡ key s → i ≡ j

  -- Rows that keep the id and the key of rows of a table make a table.
  pub IsTable-narrow :
      (next : ℕ) (f g : ℕ → Option Row)
      → IsTable next f
      → ((i : ℕ) (r : Row)
          → g i ≡ some r
          → (old : Row) × (f i ≡ some old) × (id r ≡ id old) × (key r ≡ key old))
      → IsTable next g
  IsTable-narrow next f g t from = record {
    below = λ i r e. let (old, there, _, _) = from i r e in t.below i old there;
    at_id = λ i r e. let (old, there, same, _) = from i r e in same ∙ t.at_id i old there;
    unique = λ i j r s e e' k.
        let (old, there, _, key1) = from i r e in
        let (old', there', _, key2) = from j s e' in
        t.unique i j old old' there there' (sym key1 ∙ k ∙ key2);
  }

  -- A row with a key that is in no other row can be put at its id.
  pub IsTable-put :
      (next next' k : ℕ) (f : ℕ → Option Row) (r : Row)
      → IsTable next f
      → id r ≡ k
      → k < next'
      → ((i : ℕ) → i < next → i < next')
      → ((j : ℕ) (s : Row) → f j ≡ some s → key s ≡ key r → k ≡ j)
      → IsTable next' (put f k r)
  IsTable-put next next' k f r t at fits grows free = record {
    below = λ i s e. elim (put-inv f k i r s e) [
      | inl (here, _) ↦ omega arith
      | inr (_, there) ↦ grows i (t.below i s there)
    ];
    at_id = λ i s e. elim (put-inv f k i r s e) [
      | inl (here, new) ↦ ap id new ∙ at ∙ here
      | inr (_, there) ↦ t.at_id i s there
    ];
    unique = λ i j s s' e e' same. elim (put-inv f k i r s e) [
      | inl (here, new) ↦ elim (put-inv f k j r s' e') [
        | inl (here', _) ↦ sym here ∙ here'
        | inr (_, there') ↦ sym here ∙ free j s' there' (sym same ∙ ap key new)
      ]
      | inr (_, there) ↦ elim (put-inv f k j r s' e') [
        | inl (here', new') ↦ sym (sym here' ∙ free i s there (same ∙ ap key new'))
        | inr (_, there') ↦ t.unique i j s s' there there' same
      ]
    ];
  }
