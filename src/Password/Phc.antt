-- ===== src/Password/Phc.antt =====
-- PHC_FORMAT of src/auth/password.service.ts,
-- /^\$argon2id\$v=19\$m=(\d+),t=(\d+),p=(\d+)\$([A-Za-z0-9+/]+)\$([A-Za-z0-9+/]+)$/.
-- No group can hold the unit that follows it, so the greedy reading is the only one.
pub mod Laws
use baja_valle_service.Prelude.{ℕ, Bool, Option, none, some, [], ◌∷◌}
use baja_valle_service.Text.{Text, codes, is_digit, is_base64, strip_prefix, span}
use baja_valle_service.Text.Decimal.{number}

infixl 5 ◌>>=◌
abbrev ◌>>=◌ {ℓ κ} : {A : Type ℓ} {B : Type κ} → Option A → (A → Option B) → Option B
none >>= k = none
some a >>= k = k a

-- The groups of a match, the first three as numbers.
pub record Groups : Type 0 where
  pub memory : ℕ
  pub passes : ℕ
  pub parallelism : ℕ
  pub salt : Text
  pub hash : Text

abbrev non_empty : Text × Text → Option (Text × Text)
non_empty ([], rest) = none
non_empty (c ∷ front, rest) = some (c ∷ front, rest)

-- `(class+)` at the start of the text
unfoldable pub group : (ℕ → Bool) → Text → Option (Text × Text)
unfolding span
group p s = non_empty (span p s)

abbrev end_of_text : Text → Option (Unit {0})
end_of_text [] = some tt
end_of_text (_ ∷ _) = none

unfoldable pub exec : Text → Option Groups
exec s = do
  s ← strip_prefix (codes "$argon2id$v=19$m=") s
  (m, s) ← group is_digit s
  s ← strip_prefix (codes ",t=") s
  (t, s) ← group is_digit s
  s ← strip_prefix (codes ",p=") s
  (p, s) ← group is_digit s
  s ← strip_prefix (codes "$") s
  (salt, s) ← group is_base64 s
  s ← strip_prefix (codes "$") s
  (hash, s) ← group is_base64 s
  _ ← end_of_text s
  some (record {
    memory = number m;
    passes = number t;
    parallelism = number p;
    salt = salt;
    hash = hash;
  })
