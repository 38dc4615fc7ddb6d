-- ===== src/Env/Ring.antt =====
-- The key ring that `versionedKeys` reads.
use mathlib.Core.Path.{subst}
use baja_valle_service.Prelude.{
  ℕ, ◌≤◌, ◌≡◌, ◌≢◌, refl, sym, ap, ◌∙◌, none, some, List, [], ◌∷◌, ◌++◌, map, inl, inr, arith, ◌==◌,
  ==_iff, length, All, Bool-cases, Option-cases, some_inj,
}
use baja_valle_service.Text.{Text, split, trim, span, is_digit}
use baja_valle_service.Text.Laws.{text_eq_iff}
use baja_valle_service.ParseId.Laws.{to_string-number}
use baja_valle_service.Node.{Node, Bytes}
use baja_valle_service.Encryption.{Keys, get}
use baja_valle_service.Env.Fields.{
  key_bytes, decode_key, match_colon, match_entry, decode_entry, add_entries, versioned_keys,
}

-- A positive version and a key of 32 bytes.
abbrev pub IsEntry : ℕ × Bytes → Type 0
IsEntry (v, key) = (1 ≤ v) × (length key ≡ key_bytes)

-- No version twice.
abbrev pub Apart : Keys → Type 0
Apart [] = Unit
Apart ((v, key) ∷ keys) = (get keys v ≡ none) × Apart keys

pub record IsRing (keys : Keys) : Type 0 where
  pub entries : All IsEntry keys
  pub apart : Apart keys

get-snoc :
    (keys : Keys) (u v : ℕ) (key : Bytes)
    → get keys u ≡ none
    → u ≢ v
    → get (keys ++ (v, key) ∷ []) u ≡ none
unfolding get
get-snoc [] u v key h n = ground (arith, ==_iff v u)
get-snoc ((x, k) ∷ keys) u v key h n = ground (arith, get-snoc keys u v key)

Apart-snoc :
    (keys : Keys) (v : ℕ) (key : Bytes)
    → Apart keys
    → get keys v ≡ none
    → Apart (keys ++ (v, key) ∷ [])
unfolding get
Apart-snoc [] v key h n = (refl, tt)
Apart-snoc ((x, k) ∷ keys) v key (a, h) n = (
  get-snoc keys x v key a (λ e. ground (arith, ==_iff x v)),
  Apart-snoc keys v key h (ground arith),
)

All-snoc :
    (keys : Keys) (e : ℕ × Bytes) → All IsEntry keys → IsEntry e → All IsEntry (keys ++ e ∷ [])
All-snoc [] e h k = (k, tt)
All-snoc (x ∷ keys) e (a, h) k = (a, All-snoc keys e h k)

snoc-ne-nil : (keys : Keys) (e : ℕ × Bytes) → (keys ++ e ∷ []) ≢ []
snoc-ne-nil [] e h = cc
snoc-ne-nil (x ∷ keys) e h = cc

get-mid :
    (keys rest : Keys) (v : ℕ) (key : Bytes)
    → (k : Bytes) × (get (keys ++ (v, key) ∷ rest) v ≡ some k)
unfolding get
get-mid [] rest v key = (key, ground (arith, ==_iff v v))
get-mid ((x, k) ∷ keys) rest v key = elim (Bool-cases (x == v)) [
  | inl same ↦ (k, ground arith)
  | inr other ↦ let (k', e) = get-mid keys rest v key in (k', ground arith)
]

-- What stands in front of an entry of a ring has another version.
pub Apart-front :
    (keys rest : Keys) (v : ℕ) (key : Bytes) → Apart (keys ++ (v, key) ∷ rest) → get keys v ≡ none
unfolding get
Apart-front [] rest v key h = refl
Apart-front ((x, k) ∷ keys) rest v key (a, h) = elim (Bool-cases (x == v)) [
  | inl same ↦
      let (k', e) = get-mid keys rest v key in
      let here = ap (get (keys ++ (v, key) ∷ rest)) ((==_iff x v).0 same) in
      absurd (cc (a, e, here))
  | inr other ↦ ground (arith, Apart-front keys rest v key h)
]

pub decode_key_sound :
    (node : Node) (value : Text) (key : Bytes)
    → decode_key node value ≡ some key
    → (length key ≡ key_bytes) × (node.to_base64 key ≡ value)
unfolding decode_key
decode_key_sound node value key e = ground (arith, text_eq_iff (node.to_base64 key) value)

match_colon_sound :
    (digits rest value : Text) (v : ℕ) → match_colon digits rest ≡ some (v, value) → 1 ≤ v
unfolding match_colon
match_colon_sound digits [] value v e = cc
match_colon_sound digits (c ∷ []) value v e = cc
match_colon_sound digits (c ∷ d ∷ rest) value v e = ground (arith, to_string-number digits)

decode_entry_sound :
    (node : Node) (entry : Text) (v : ℕ) (key : Bytes)
    → decode_entry node (match_entry entry) ≡ some (v, key)
    → IsEntry (v, key)
unfolding decode_entry match_entry
decode_entry_sound node entry v key e = elim (Option-cases (match_entry entry)) [
  | inl gone ↦ ground arith
  | inr ((u, value), read) ↦ elim (Option-cases (decode_key node value)) [
    | inl bad ↦ ground arith
    | inr (k, good) ↦
        let at_least =
          match_colon_sound (span is_digit entry).0 (span is_digit entry).1 value u read in
        let (size, _) = decode_key_sound node value k good in
        let version : u ≡ v = ground arith in
        let same : k ≡ key = ground arith in (omega arith, ap length (sym same) ∙ size)
  ]
]

add_entries-IsRing :
    (node : Node) (keys out : Keys) (entries : List Text)
    → add_entries node keys entries ≡ some out
    → IsRing keys
    → IsRing out
unfolding add_entries
add_entries-IsRing node keys out [] e r = subst IsRing (some_inj e) r
add_entries-IsRing node keys out (entry ∷ entries) e r =
    elim (Option-cases (decode_entry node (match_entry entry))) [
      | inl bad ↦ ground arith
      | inr ((v, key), good) ↦ elim (Option-cases (get keys v)) [
        | inr (k, taken) ↦ ground arith
        | inl free ↦
            add_entries-IsRing node (keys ++ (v, key) ∷ []) out entries (ground arith) (record {
              entries = All-snoc keys (v, key) r.entries (decode_entry_sound node entry v key good);
              apart = Apart-snoc keys v key r.apart free;
            })
      ]
    ]

add_entries-ne-nil :
    (node : Node) (keys out : Keys) (entries : List Text)
    → add_entries node keys entries ≡ some out
    → keys ≢ []
    → out ≢ []
unfolding add_entries
add_entries-ne-nil node keys out [] e n = λ nil. n (some_inj e ∙ nil)
add_entries-ne-nil node keys out (entry ∷ entries) e n =
    elim (Option-cases (decode_entry node (match_entry entry))) [
      | inl bad ↦ ground arith
      | inr ((v, key), good) ↦ elim (Option-cases (get keys v)) [
        | inr (k, taken) ↦ ground arith
        | inl free ↦
            add_entries-ne-nil node (keys ++ (v, key) ∷ []) out entries (ground arith)
              (snoc-ne-nil keys (v, key))
      ]
    ]

split-cons :
    (sep : ℕ) (s : Text) → (part : Text) × (parts : List Text) × (split sep s ≡ part ∷ parts)
unfolding split
split-cons sep [] = ([], [], refl)
split-cons sep (c ∷ s) =
    let (part, parts, e) = split-cons sep s in
    elim (Bool-cases (c == sep)) [
      | inl here ↦ ([], split sep s, ground arith)
      | inr on ↦ (c ∷ part, parts, ground arith)
    ]

start_ring :
    (node : Node) (out : Keys) (entries : List Text)
    → add_entries node [] entries ≡ some out
    → (part : Text) (parts : List Text) → entries ≡ part ∷ parts
    → out ≢ []
unfolding add_entries get
start_ring node out entries e part parts given =
    let e' : add_entries node [] (part ∷ parts) ≡ some out =
      ap (add_entries node []) (sym given) ∙ e in
    elim (Option-cases (decode_entry node (match_entry part))) [
      | inl bad ↦ ground arith
      | inr ((v, key), good) ↦
          add_entries-ne-nil node ((v, key) ∷ []) out parts (ground arith) (λ nil. cc)
    ]

-- The keys that are read are at least one, with positive versions, no version twice, and 32 bytes
-- each.
pub versioned_keys-IsRing :
    (node : Node) (value : Text) (keys : Keys)
    → versioned_keys node value ≡ some keys
    → IsRing keys × (keys ≢ [])
unfolding versioned_keys
versioned_keys-IsRing node value keys e =
    let (part, parts, given) = split-cons b',' value in
    (
      add_entries-IsRing node [] keys (map trim (split b',' value)) e
          (record { entries = tt; apart = tt }),
      start_ring node keys (map trim (split b',' value)) e (trim part) (map trim parts)
          (ap (map trim) given),
    )
