-- ===== src/Encryption/Laws.antt =====
-- What is encrypted is read back in its own column, also after the keys were rotated.
use baja_valle_service.Prelude.{
  ℕ, ◌+◌, ◌≤◌, ◌≡◌, true, false, some, [], ◌∷◌, inl, inr, arith, leb, Bool-cases, Option-cases,
  length, all, ==_refl,
}
use baja_valle_service.Text.{Text, is_digit}
use baja_valle_service.Text.Laws.{Lacks, split-join}
use baja_valle_service.Text.Decimal.{to_string, number-to_string, digits-to_string}
use baja_valle_service.ParseId.Laws.{positive-to_string}
use baja_valle_service.Node.{Node, NodeLaws, Bytes}
use baja_valle_service.Exec.{ok, Result-cases}
use baja_valle_service.World.{World}
use baja_valle_service.Encryption.{
  Keys, get, current_version, Payload, iv_bytes, tag_bytes, parse_version, format, check_lengths,
  parse_parts, parse, seal, encrypt, open_payload, decrypt, needs_reencryption, reencrypt,
}

Lacks-dot : (s : Text) → all is_digit s ≡ true → Lacks b'.' s
Lacks-dot [] h = tt
Lacks-dot (c ∷ s) h = (ground arith, Lacks-dot s (ground arith))

parse_version_lem : (n : ℕ) → 1 ≤ n → parse_version (b'v' ∷ to_string n) ≡ some (to_string n)
unfolding parse_version
parse_version_lem n h = rw (positive-to_string n h)

-- A ring of at least one key holds a key of its current version.
pub get-current_version :
    (v : ℕ) (key : Bytes) (keys : Keys)
    → (k : Bytes) × (get ((v, key) ∷ keys) (current_version ((v, key) ∷ keys)) ≡ some k)
unfolding get current_version
get-current_version v key [] = (key, ground arith)
get-current_version v key ((u, k) ∷ keys) =
    let (k', e) = get-current_version u k keys in
    elim (Bool-cases (leb (current_version ((u, k) ∷ keys)) v)) [
      | inl newest ↦ (key, ground arith)
      | inr older ↦ (k', ground arith)
    ]

module _ (node : Node) (laws : NodeLaws node) where
  -- A payload with an iv and a tag of the fixed lengths is parsed back from its text.
  pub parse-format :
      (p : Payload)
      → 1 ≤ p.version
      → length p.iv ≡ iv_bytes
      → length p.tag ≡ tag_bytes
      → parse node (format node p) ≡ ok p
  unfolding parse format check_lengths parse_parts
  parse-format p h i t =
      rw
        (split-join b'.' (b'v' ∷ to_string p.version)
          (node.to_base64url p.iv ∷ node.to_base64url p.tag ∷ node.to_base64url p.ciphertext ∷ [])
          (
            (omega arith, Lacks-dot _ (digits-to_string p.version)),
            (
              laws.base64url-Lacks p.iv,
              (laws.base64url-Lacks p.tag, (laws.base64url-Lacks p.ciphertext, tt)),
            ),
          ))
        (rw
          (
            parse_version_lem p.version h,
            parse_parts,
            number-to_string p.version,
            laws.base64url_lem p.iv,
            laws.base64url_lem p.tag,
            laws.base64url_lem p.ciphertext,
          )
          (ground arith))

  -- What `encrypt` writes, in one equation.
  encrypt-eq :
      {Db : Type 0} (keys : Keys) (plaintext context c : Text) (w w' : World Db)
      → encrypt node keys plaintext context w ≡ (ok c, w')
      → (key : Bytes) × (get keys (current_version keys) ≡ some key)
        × (c
            ≡ format node (
                seal node
                  (current_version keys)
                  key
                  (node.random_bytes w.draws iv_bytes)
                  plaintext
                  context))
  unfolding encrypt
  encrypt-eq keys plaintext context c w w' e = ground arith

  -- A payload sealed under a key of the ring is opened by the ring.
  open_payload-seal :
      (keys : Keys) (v : ℕ) (key iv : Bytes) (plaintext context : Text)
      → get keys v ≡ some key
      → laws.IsText plaintext
      → open_payload node keys context (seal node v key iv plaintext context) ≡ ok plaintext
  unfolding open_payload seal
  open_payload-seal keys v key iv plaintext context e h = ground (
    arith,
    laws.gcm_lem key iv (node.to_utf8 context) (node.to_utf8 plaintext),
    laws.utf8_lem plaintext h,
  )

  parse-encrypt :
      {Db : Type 0} (keys : Keys) (plaintext context c : Text) (w w' : World Db)
      → 1 ≤ current_version keys
      → encrypt node keys plaintext context w ≡ (ok c, w')
      → (key iv : Bytes) × (get keys (current_version keys) ≡ some key)
        × (parse node c ≡ ok (seal node (current_version keys) key iv plaintext context))
  unfolding seal
  parse-encrypt keys plaintext context c w w' h e =
      let (key, found, written) = encrypt-eq keys plaintext context c w w' e in
      let iv : Bytes = node.random_bytes w.draws iv_bytes in
      (
        key,
        iv,
        found,
        rw written (
            parse-format (seal node (current_version keys) key iv plaintext context) h
              (laws.length-random_bytes w.draws iv_bytes)
              (laws.length-tag key iv (node.to_utf8 context) (node.to_utf8 plaintext))),
      )

  -- What `encrypt` writes for a field is read back by `decrypt` for that field, and is under the
  -- current key.
  pub decrypt-encrypt :
      {Db : Type 0} (keys : Keys) (plaintext context c : Text) (w w' : World Db)
      → 1 ≤ current_version keys
      → laws.IsText plaintext
      → encrypt node keys plaintext context w ≡ (ok c, w')
      → (decrypt node keys c context ≡ ok plaintext) × (needs_reencryption node keys c ≡ ok false)
  unfolding decrypt needs_reencryption seal
  decrypt-encrypt keys plaintext context c w w' h t e =
      let (key, iv, found, parsed) = parse-encrypt keys plaintext context c w w' h e in
      (
        rw (parsed, decrypt)
            (open_payload-seal keys (current_version keys) key iv plaintext context found t),
        rw (parsed, needs_reencryption) (rw (==_refl (current_version keys))),
      )

  -- Encryption never fails with a ring that has its current key, and touches only the draws.
  pub encrypt_total :
      {Db : Type 0} (keys : Keys) (key : Bytes) (plaintext context : Text) (w : World Db)
      → get keys (current_version keys) ≡ some key
      → encrypt node keys plaintext context w ≡ (
        ok (
            format node (
              seal node
                (current_version keys)
                key
                (node.random_bytes w.draws iv_bytes)
                plaintext
                context)),
        record w { draws = w.draws + 1 },
      )
  unfolding encrypt
  encrypt_total keys key plaintext context w e = rw e

  open_payload_extend :
      (keys more : Keys) (context t : Text) (p : Payload)
      → ((key : Bytes) → get keys p.version ≡ some key → get more p.version ≡ some key)
      → open_payload node keys context p ≡ ok t
      → open_payload node more context p ≡ ok t
  unfolding open_payload
  open_payload_extend keys more context t p keep e = elim (Option-cases (get keys p.version)) [
    | inl missing ↦ ground arith
    | inr (key, found) ↦ ground (arith, keep key found)
  ]

  -- A ring that has every key of another decrypts all that the other decrypts.
  pub decrypt_extend :
      (keys more : Keys) (c context t : Text)
      → ((v : ℕ) (key : Bytes) → get keys v ≡ some key → get more v ≡ some key)
      → decrypt node keys c context ≡ ok t
      → decrypt node more c context ≡ ok t
  unfolding decrypt open_payload
  decrypt_extend keys more c context t keep e = elim (Result-cases (parse node c)) [
    | inl (f, bad) ↦ ground arith
    | inr (p, good) ↦
        rw (good, decrypt)
          (open_payload_extend keys more context t p (keep p.version) (rw (good, decrypt) at e))
  ]

  -- Re-encrypting keeps the plaintext and moves it under the current key.
  pub decrypt-reencrypt :
      {Db : Type 0} (keys : Keys) (c context t c' : Text) (w w' : World Db)
      → 1 ≤ current_version keys
      → laws.IsText t
      → decrypt node keys c context ≡ ok t
      → reencrypt node keys c context w ≡ (ok c', w')
      → (decrypt node keys c' context ≡ ok t) × (needs_reencryption node keys c' ≡ ok false)
  unfolding reencrypt
  decrypt-reencrypt keys c context t c' w w' h text read e =
      decrypt-encrypt keys t context c' w w' h text (rw read at e)

-- Encryption leaves the database alone, whether it returns or throws.
pub db-encrypt :
    {Db : Type 0} (node : Node) (keys : Keys) (plaintext context : Text) (w : World Db)
    → (encrypt node keys plaintext context w).1.db ≡ w.db
unfolding encrypt
db-encrypt node keys plaintext context w = ground arith
