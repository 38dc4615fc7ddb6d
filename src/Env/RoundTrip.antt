-- ===== src/Env/RoundTrip.antt =====
-- What the documentation of ENCRYPTION_KEYS asks to write is read back.
use mathlib.Core.List.{append_assoc, append-nil}
use baja_valle_service.Prelude.{
  ℕ, ◌≡◌, ◌≢◌, refl, sym, ap, ◌∙◌, Bool, true, ◌||◌, some, [], ◌∷◌, ◌++◌, map, arith, ◌==◌, ==_iff,
  length, all, All, all-append,
}
use baja_valle_service.Text.{Text, join, trim, trim_start, trim_end, is_space, is_digit, is_base64}
use baja_valle_service.Text.Laws.{text_eq_refl, Lacks, split-join, span-append}
use baja_valle_service.Text.Decimal.{number, to_string, number-to_string, digits-to_string}
use baja_valle_service.ParseId.{is_positive_integer}
use baja_valle_service.ParseId.Laws.{positive-to_string}
use baja_valle_service.Node.{Node, NodeLaws, Bytes}
use baja_valle_service.Encryption.{Keys}
use baja_valle_service.Env.Fields.{
  key_bytes, decode_key, is_dot, match_colon, match_entry, decode_entry, add_entries,
  versioned_keys,
}
use baja_valle_service.Env.Ring.{IsEntry, Apart, IsRing, Apart-front}

-- The entry <version>:<key in base64>
pub entry_text : Node → ℕ × Bytes → Text
entry_text node (v, key) = to_string v ++ (b':' ∷ node.to_base64 key)

-- The characters of an entry.
is_entry_char : ℕ → Bool
is_entry_char c = is_base64 c || c == b'=' || c == b':'

all_imp :
    (p q : ℕ → Bool) (s : Text)
    → ((c : ℕ) → p c ≡ true → q c ≡ true)
    → all p s ≡ true
    → all q s ≡ true
all_imp p q [] f h = refl
all_imp p q (c ∷ s) f h = ground (arith, f c, all_imp p q s f)

trim_end_of_all : (s : Text) → all is_entry_char s ≡ true → trim_end s ≡ s
unfolding trim_end is_entry_char is_base64 is_space
trim_end_of_all [] h = refl
trim_end_of_all (c ∷ []) h = ground arith
trim_end_of_all (c ∷ d ∷ s) h = rw (trim_end_of_all (d ∷ s) (ground arith)) refl

trim_of_all : (s : Text) → all is_entry_char s ≡ true → trim s ≡ s
unfolding trim trim_start is_entry_char is_base64 is_space
trim_of_all [] h = trim_end_of_all [] refl
trim_of_all (c ∷ s) h = ground (arith, trim_end_of_all (c ∷ s))

Lacks-comma : (s : Text) → all is_entry_char s ≡ true → Lacks b',' s
unfolding is_entry_char is_base64
Lacks-comma [] h = tt
Lacks-comma (c ∷ s) h = (λ e. ground arith, Lacks-comma s (ground arith))

match_colon-eq :
    (digits t : Text)
    → is_positive_integer digits ≡ true
    → all is_dot t ≡ true
    → t ≢ []
    → match_colon digits (b':' ∷ t) ≡ some (number digits, t)
unfolding match_colon
match_colon-eq digits [] h k n = absurd (n refl)
match_colon-eq digits (d ∷ t) h k n = ground arith

dot_of_base64 : (c : ℕ) → (is_base64 c || c == b'=') ≡ true → is_dot c ≡ true
unfolding is_base64
dot_of_base64 c h = ground arith

entry_of_base64 : (c : ℕ) → (is_base64 c || c == b'=') ≡ true → is_entry_char c ≡ true
unfolding is_entry_char
entry_of_base64 c h = ground arith

entry_of_digit : (c : ℕ) → is_digit c ≡ true → is_entry_char c ≡ true
unfolding is_entry_char is_base64
entry_of_digit c h = ground arith

module _ (node : Node) (laws : NodeLaws node) where
  entry_chars : (e : ℕ × Bytes) → all is_entry_char (entry_text node e) ≡ true
  unfolding entry_text is_entry_char is_base64
  entry_chars (v, key) =
      all-append is_entry_char (to_string v) (b':' ∷ node.to_base64 key)
        (all_imp is_digit is_entry_char (to_string v) entry_of_digit (digits-to_string v))
        (all_imp (λ c. is_base64 c || c == b'=') is_entry_char (node.to_base64 key) entry_of_base64
          (laws.to_base64_alphabet key))

  decode_key-to_base64 :
      (key : Bytes) → length key ≡ key_bytes → decode_key node (node.to_base64 key) ≡ some key
  unfolding decode_key
  decode_key-to_base64 key size =
      let back = laws.from_base64-to_base64 key in
      rw back (ground (arith, text_eq_refl (node.to_base64 key), ==_iff (length key) 32))

  to_base64-ne-nil : (key : Bytes) → length key ≡ key_bytes → node.to_base64 key ≢ []
  to_base64-ne-nil key size nil =
      let empty =
        sym (laws.from_base64-to_base64 key) ∙ ap node.from_base64 nil ∙ laws.from_base64-nil in
      let zero = ap length empty in ground arith

  match_entry_text :
      (v : ℕ) (key : Bytes)
      → IsEntry (v, key)
      → match_entry (entry_text node (v, key)) ≡ some (v, node.to_base64 key)
  unfolding entry_text match_entry
  match_entry_text v key (h, size) =
      ap (λ (p : Text × Text). match_colon p.0 p.1)
        (span-append is_digit (to_string v) b':' (node.to_base64 key) (digits-to_string v) refl)
      ∙ match_colon-eq (to_string v) (node.to_base64 key) (positive-to_string v h)
          (all_imp (λ c. is_base64 c || c == b'=') is_dot (node.to_base64 key) dot_of_base64
            (laws.to_base64_alphabet key))
          (to_base64-ne-nil key size)
      ∙ ap (λ n. some (n, node.to_base64 key)) (number-to_string v)

  decode_entry_text :
      (v : ℕ) (key : Bytes)
      → IsEntry (v, key)
      → decode_entry node (match_entry (entry_text node (v, key))) ≡ some (v, key)
  unfolding decode_entry
  decode_entry_text v key (h, size) =
      rw (match_entry_text v key (h, size)) (rw (decode_key-to_base64 key size, decode_entry) refl)

  add_entries_texts :
      (keys rest : Keys)
      → All IsEntry rest
      → Apart (keys ++ rest)
      → add_entries node keys (map (entry_text node) rest) ≡ some (keys ++ rest)
  unfolding add_entries
  add_entries_texts keys [] h a = ap some (sym (append-nil keys))
  add_entries_texts keys ((v, key) ∷ rest) (h, k) a =
      let read = decode_entry_text v key h in
      let free = Apart-front keys rest v key a in
      let joined : (keys ++ (v, key) ∷ []) ++ rest ≡ keys ++ (v, key) ∷ rest =
        append_assoc keys ((v, key) ∷ []) rest in
      let more = add_entries_texts (keys ++ (v, key) ∷ []) rest k (rw joined a) in
      rw (read, add_entries) (rw (free, add_entries) (more ∙ ap some joined))

  trim_texts : (keys : Keys) → map trim (map (entry_text node) keys) ≡ map (entry_text node) keys
  trim_texts [] = refl
  trim_texts (e ∷ keys) = rw (trim_of_all (entry_text node e) (entry_chars e), trim_texts keys) refl

  texts-Lacks : (keys : Keys) → All (Lacks b',') (map (entry_text node) keys)
  texts-Lacks [] = tt
  texts-Lacks (e ∷ keys) = (Lacks-comma (entry_text node e) (entry_chars e), texts-Lacks keys)

  -- A ring with positive versions, no version twice and keys of 32 bytes is read back from its
  -- entries, joined by commas.
  pub versioned_keys-join :
      (v : ℕ) (key : Bytes) (keys : Keys)
      → IsRing ((v, key) ∷ keys)
      → versioned_keys node (join b',' (map (entry_text node) ((v, key) ∷ keys)))
        ≡ some ((v, key) ∷ keys)
  unfolding versioned_keys
  versioned_keys-join v key keys r =
      let ring : Keys = (v, key) ∷ keys in
      ap (λ parts. add_entries node [] (map trim parts))
        (split-join b',' (entry_text node (v, key)) (map (entry_text node) keys) (texts-Lacks ring))
      ∙ ap (add_entries node []) (trim_texts ring)
      ∙ add_entries_texts [] ring r.entries r.apart
