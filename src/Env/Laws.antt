-- ===== src/Env/Laws.antt =====
-- What an accepted environment guarantees.
use baja_valle_service.Prelude.{
  ◌≡◌, ◌≢◌, refl, sym, ap, ◌∙◌, true, false, Option, none, some, List, [], ◌∷◌, ◌++◌, map, inl, inr,
  arith, any, All, length, Bool-cases,
}
use baja_valle_service.Text.{Text, codes, text_eq}
use baja_valle_service.Text.Laws.{text_eq_iff}
use baja_valle_service.Node.{Node, NodeLaws, Bytes}
use baja_valle_service.Exec.{ok}
use baja_valle_service.Env.Ring.{IsRing, versioned_keys-IsRing, decode_key_sound}
use baja_valle_service.Env.{
  Env, Config, all_distinct, values, keys_differ, parse_object, refine, validate_env, ◌>>=◌,
}
use baja_valle_service.Env.Fields.{Zod, key_bytes, decode_key, versioned_keys, required}

>>=-some {ℓ} :
    {A B : Type ℓ} (m : Option A) (f : A → Option B) (b : B)
    → (m >>= f) ≡ some b
    → (a : A) × (m ≡ some a) × (f a ≡ some b)
>>=-some none f b e = cc
>>=-some (some a) f b e = (a, refl, e)

-- All keys are pairwise different.
abbrev pub Distinct : List Bytes → Type 0
Distinct [] = Unit
Distinct (k ∷ keys) = All (λ j. k ≢ j) keys × Distinct keys

module _ (node : Node) (laws : NodeLaws node) where
  any-hex :
      (k : Bytes) (keys : List Bytes)
      → any (text_eq (node.to_hex k)) (map node.to_hex keys) ≡ false
      → All (λ j. k ≢ j) keys
  any-hex k [] h = tt
  any-hex k (j ∷ keys) h = (
    λ e. ground (arith, (text_eq_iff (node.to_hex k) (node.to_hex j)).1 (ap node.to_hex e)),
    any-hex k keys (ground arith),
  )

  all_distinct-Distinct :
      (keys : List Bytes) → all_distinct (map node.to_hex keys) ≡ true → Distinct keys
  unfolding all_distinct
  all_distinct-Distinct [] h = tt
  all_distinct-Distinct (k ∷ keys) h =
      (any-hex k keys (ground arith), all_distinct-Distinct keys (ground arith))

module _ (zod : Zod) (config : Config) (node : Node) where
  parse_object-keys :
      (env : Env)
      → parse_object zod config node ≡ some env
      → (required (versioned_keys node) (config (codes "ENCRYPTION_KEYS"))
          ≡ some env.encryption_keys)
        × (required (decode_key node) (config (codes "BLIND_INDEX_KEY")) ≡ some env.blind_index_key)
        × (required (decode_key node) (config (codes "JWT_ACCESS_SECRET"))
            ≡ some env.jwt_access_secret)
  unfolding parse_object
  parse_object-keys env e = (ground arith, ground arith, ground arith)

-- The keys of an accepted environment.
pub record HasKeys (env : Env) : Type 0 where
  pub ring : IsRing env.encryption_keys
  pub one : env.encryption_keys ≢ []
  pub blind_size : length env.blind_index_key ≡ key_bytes
  pub secret_size : length env.jwt_access_secret ≡ key_bytes
  pub distinct :
      Distinct (values env.encryption_keys ++ (env.blind_index_key ∷ env.jwt_access_secret ∷ []))

required-some :
    {A : Type 0} (check : Text → Option A) (o : Option Text) (a : A)
    → required check o ≡ some a
    → (value : Text) × (check value ≡ some a)
unfolding required
required-some check none a e = cc
required-some check (some value) a e = (value, e)

module _ (node : Node) (laws : NodeLaws node) (zod : Zod) (config : Config) where
  refine-ok :
      (o : Option Env) (env : Env)
      → refine zod config node o ≡ ok env
      → (o ≡ some env) × (keys_differ node env ≡ true)
  unfolding refine
  refine-ok none env e = cc
  refine-ok (some x) env e = elim (Bool-cases (keys_differ node x)) [
    | inl differ ↦
        let same : x ≡ env = ground arith in
        (ap some same, ap (keys_differ node) (sym same) ∙ differ)
    | inr equal ↦ ground arith
  ]

  -- An environment that is accepted has at least one key with a positive version, no version twice,
  -- keys of 32 bytes, and no key twice among those of the ring, the index and the tokens.
  pub validate_env-HasKeys : (env : Env) → validate_env zod config node ≡ ok env → HasKeys env
  unfolding validate_env keys_differ
  validate_env-HasKeys env e =
      let (parsed, differ) = refine-ok (parse_object zod config node) env e in
      let (k, b, j) = parse_object-keys zod config node env parsed in
      let (keys, read) =
        required-some (versioned_keys node) (config (codes "ENCRYPTION_KEYS")) env.encryption_keys
          k in
      let (blind, read_blind) =
        required-some (decode_key node) (config (codes "BLIND_INDEX_KEY")) env.blind_index_key b in
      let (secret, read_secret) =
        required-some (decode_key node) (config (codes "JWT_ACCESS_SECRET")) env.jwt_access_secret
          j in
      let (ring, one) = versioned_keys-IsRing node keys env.encryption_keys read in
      record {
        ring = ring;
        one = one;
        blind_size = (decode_key_sound node blind env.blind_index_key read_blind).0;
        secret_size = (decode_key_sound node secret env.jwt_access_secret read_secret).0;
        distinct =
            all_distinct-Distinct node laws
              (values env.encryption_keys ++ (env.blind_index_key ∷ env.jwt_access_secret ∷ []))
              differ;
      }
