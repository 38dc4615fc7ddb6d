-- ===== src/Env/Fields.antt =====
-- The checks of single variables in src/config/env.ts.
use baja_valle_service.Prelude.{
  ℕ, Bool, true, false, not, ◌&&◌, ◌||◌, Option, none, some, List, [], ◌∷◌, ◌++◌, map, ◌==◌,
  if◌then◌else◌, length, all, any,
}
use baja_valle_service.Text.{Text, codes, text_eq, split, trim, span, is_digit, is_prefix}
use baja_valle_service.Text.Decimal.{number}
use baja_valle_service.ParseId.{is_positive_integer}
use baja_valle_service.Node.{Node, Bytes}
use baja_valle_service.Encryption.{Keys, get}

-- The checks of zod: `none` and `false` are issues.
pub record Zod : Type 0 where
  pub positive_int : Text → Option ℕ
  pub is_url : Text → Bool
  pub is_http_url : Text → Bool
  pub is_email : Text → Bool

abbrev pub key_bytes : ℕ
key_bytes = 32

unfoldable pub decode_key : Node → Text → Option Bytes
decode_key node value =
    let key = node.from_base64 value in
    if length key == key_bytes && text_eq (node.to_base64 key) value then some key else none

-- A character of the class `.`
abbrev pub is_dot : ℕ → Bool
is_dot c = not (c == 10 || c == 13 || c == 0x2028 || c == 0x2029)

-- The groups of /^([1-9]\d*):(.+)$/: the digits end where the colon stands.
unfoldable pub match_colon : Text → Text → Option (ℕ × Text)
match_colon digits (c ∷ d ∷ rest) =
    if is_positive_integer digits && c == b':' && all is_dot (d ∷ rest)
    then some (number digits, d ∷ rest)
    else none
match_colon digits _ = none

unfoldable pub match_entry : Text → Option (ℕ × Text)
unfolding match_colon
match_entry entry = let (digits, rest) = span is_digit entry in match_colon digits rest

unfoldable pub decode_entry : Node → Option (ℕ × Text) → Option (ℕ × Bytes)
decode_entry node none = none
decode_entry node (some (version, value)) = elim (decode_key node value) [
  | none ↦ none
  | some key ↦ some (version, key)
]

-- The loop of `versionedKeys`, on the keys so far.
unfoldable pub add_entries : Node → Keys → List Text → Option Keys
unfolding decode_entry
add_entries node keys [] = some keys
add_entries node keys (entry ∷ entries) = elim (decode_entry node (match_entry entry)) [
  | none ↦ none
  | some (version, key) ↦ elim (get keys version) [
    | some _ ↦ none
    | none ↦ add_entries node (keys ++ (version, key) ∷ []) entries
  ]
]

unfoldable pub versioned_keys : Node → Text → Option Keys
unfolding add_entries
versioned_keys node value = add_entries node [] (map trim (split b',' value))

unfoldable pub is_given : Text → Bool
is_given [] = false
is_given (_ ∷ _) = true

unfoldable pub keep_given : List Text → List Text
unfolding is_given
keep_given [] = []
keep_given (t ∷ ts) = if is_given t then t ∷ keep_given ts else keep_given ts

unfoldable pub cors_origins : Zod → Text → Option (List Text)
unfolding keep_given
cors_origins zod value =
    let origins = keep_given (map trim (split b',' value)) in
    if all zod.is_http_url origins then some origins else none

unfoldable pub postgres_url : Zod → Text → Option Text
postgres_url zod value =
    if zod.is_url value
      && (is_prefix (codes "postgres://") value || is_prefix (codes "postgresql://") value)
    then some value
    else none

unfoldable pub boolean_string : Text → Option Bool
boolean_string value =
    if text_eq value (codes "true")
    then some true
    else if text_eq value (codes "false")
    then some false
    else none

unfoldable pub node_env : Text → Option Text
node_env value =
    if any (text_eq value) (codes "development" ∷ codes "test" ∷ codes "production" ∷ [])
    then some value
    else none

unfoldable pub non_empty : Text → Option Text
non_empty [] = none
non_empty (c ∷ s) = some (c ∷ s)

unfoldable pub email : Zod → Text → Option Text
email zod value = if zod.is_email value then some value else none

-- .default(…), .optional(), and a variable that has to be set
unfoldable pub or_default {ℓ} : {A : Type ℓ} → A → (Text → Option A) → Option Text → Option A
or_default d check none = some d
or_default d check (some value) = check value

unfoldable pub optional : {A : Type 0} → (Text → Option A) → Option Text → Option (Option A)
optional check none = some none
optional check (some value) = elim (check value) [ none ↦ none | some a ↦ some (some a) ]

unfoldable pub required : {A : Type 0} → (Text → Option A) → Option Text → Option A
required check none = none
required check (some value) = check value
