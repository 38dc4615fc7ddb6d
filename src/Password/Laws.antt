-- ===== src/Password/Laws.antt =====
-- Hashing and verifying passwords, and which passwords are refused.
use baja_valle_service.Prelude.{
  All, some_inj, &&-eq-true, ℕ, ◌+◌, ◌≤◌, ◌≡◌, ◌≢◌, ◌↔◌, refl, sym, ap, ◌∙◌, Bool, true, false,
  ◌&&◌, some, List, [], ◌∷◌, inl, inr, arith, leb, if◌then◌else◌, Bool-cases, length, any,
}
use baja_valle_service.Text.{Text, codes, text_eq, includes, strip_padding}
use baja_valle_service.Text.Laws.{text_eq_iff, text_eq_refl, Occurs, includes_iff}
use baja_valle_service.Text.Decimal.{to_string}
use baja_valle_service.Node.{Node, NodeLaws, Bytes, Argon2Params}
use baja_valle_service.Exec.{ok, err}
use baja_valle_service.World.{World}
use baja_valle_service.Password.Phc.{exec}
use baja_valle_service.Password.Phc.Laws.{exec-phc}
use baja_valle_service.Password.{
  default_params, hash_bytes, salt_bytes, max_memory, min_email_part, parse, phc_text, hash, verify,
  needs_rehash, local_part, assert_acceptable, holds_email,
}

version_lem : to_string 19 ≡ codes "19"
unfolding to_string
version_lem = refl

any_text_sound :
    (t : Text) (common : List Text) → any (text_eq t) common ≡ false → All (λ c. c ≢ t) common
any_text_sound t [] h = tt
any_text_sound t (c ∷ common) h =
    (λ e. ground (arith, (text_eq_iff t c).1 (sym e)), any_text_sound t common (ground arith))

any_text_complete :
    (t : Text) (common : List Text) → All (λ c. c ≢ t) common → any (text_eq t) common ≡ false
any_text_complete t [] h = refl
any_text_complete t (c ∷ common) (n, h) = ground (
  arith,
  λ (e : text_eq t c ≡ true). n (sym ((text_eq_iff t c).0 e)),
  any_text_complete t common h,
)

part_apart :
    (normalized part : Text)
    → ¬ ((min_email_part ≤ length part) × Occurs part normalized)
    → (if leb min_email_part (length part) && includes normalized part
        then err holds_email
        else ok tt)
      ≡ ok (tt {0})
part_apart normalized part apart =
    elim (Bool-cases (leb min_email_part (length part) && includes normalized part)) [
      | inr apart_or_short ↦ rw apart_or_short
      | inl both ↦
          let (long, inside) =
            &&-eq-true (leb min_email_part (length part)) (includes normalized part) both in
          absurd (apart (ground arith, (includes_iff normalized part).0 inside))
    ]

module _ (node : Node) (laws : NodeLaws node) where
  base64-ne-nil : (b : Bytes) → b ≢ [] → strip_padding (node.to_base64 b) ≢ []
  base64-ne-nil b n e = n (sym (laws.base64_lem b) ∙ ap node.from_base64 e ∙ laws.from_base64-nil)

  exec-phc_text :
      (params : Argon2Params) (salt key : Bytes)
      → salt ≢ []
      → key ≢ []
      → exec (phc_text node params salt key)
        ≡ some (record {
          memory = params.memory;
          passes = params.passes;
          parallelism = params.parallelism;
          salt = strip_padding (node.to_base64 salt);
          hash = strip_padding (node.to_base64 key);
        })
  unfolding phc_text
  exec-phc_text params salt key ns nk = rw version_lem (
      exec-phc params.memory params.passes params.parallelism _ _ (base64-ne-nil salt ns)
        (base64-ne-nil key nk) (laws.base64_alphabet salt) (laws.base64_alphabet key))

  -- The parameters, the salt and the key that `hash` writes are parsed back.
  parse-phc_text :
      (params : Argon2Params) (salt key : Bytes)
      → salt ≢ []
      → key ≢ []
      → params.memory ≤ max_memory
      → 1 ≤ params.passes
      → 1 ≤ params.parallelism
      → parse node (phc_text node params salt key)
        ≡ some (record { params = params; salt = salt; hash = key })
  unfolding parse
  parse-phc_text params salt key ns nk m t p =
      rw (exec-phc_text params salt key ns nk, parse, laws.base64_lem salt, laws.base64_lem key)
        (ground arith)

  ne_nil_of_length : (b : Bytes) (n : ℕ) → length b ≡ n → 1 ≤ n → b ≢ []
  ne_nil_of_length b n e h k = omega (arith, ap length k)

  -- What hashing writes: a salt of 16 bytes, a key of 32, and nothing but a draw.
  pub hash-eq :
      {Db : Type 0} (password : Text) (w : World Db)
      → let salt = node.random_bytes w.draws salt_bytes in
        (key : Bytes) × (node.argon2id password salt hash_bytes default_params ≡ some key)
        × (length key ≡ hash_bytes)
        × (hash node password w
            ≡ (ok (phc_text node default_params salt key), record w { draws = w.draws + 1 }))
  unfolding hash
  hash-eq password w =
      let salt : Bytes = node.random_bytes w.draws salt_bytes in
      let long : length salt ≡ salt_bytes = laws.length-random_bytes w.draws salt_bytes in
      let (key, derived, size) =
        laws.argon2id_total password salt hash_bytes default_params (omega arith) (omega arith)
          (omega arith) (omega arith) (omega arith) in
      (key, derived, size, rw derived)

  parse-hash :
      (salt key : Bytes)
      → length salt ≡ salt_bytes
      → length key ≡ hash_bytes
      → parse node (phc_text node default_params salt key)
        ≡ some (record { params = default_params; salt = salt; hash = key })
  parse-hash salt key s k =
      parse-phc_text default_params salt key (ne_nil_of_length salt salt_bytes s (omega arith))
        (ne_nil_of_length key hash_bytes k (omega arith)) (omega arith) (omega arith) (omega arith)

  pub verify-phc_text :
      {Db : Type 0} (salt key candidate : Bytes) (other : Text) (v : World Db)
      → length salt ≡ salt_bytes
      → length key ≡ hash_bytes
      → node.argon2id other salt hash_bytes default_params ≡ some candidate
      → length candidate ≡ hash_bytes
      → verify node (phc_text node default_params salt key) other v
        ≡ (ok (text_eq candidate key), v)
  unfolding verify
  verify-phc_text salt key candidate other v s k derived c =
      rw (parse-hash salt key s k, verify, derived) (ground arith)

  needs_rehash-phc_text :
      (salt key : Bytes)
      → length salt ≡ salt_bytes
      → length key ≡ hash_bytes
      → needs_rehash node (phc_text node default_params salt key) ≡ false
  unfolding needs_rehash
  needs_rehash-phc_text salt key s k = rw (parse-hash salt key s k, needs_rehash)

  -- Hashing always succeeds and touches only the draws. Against the text that it wrote, `verify`
  -- changes nothing and answers true exactly for the passwords with the same argon2id key under the
  -- salt that was drawn, the hashed one among them; and that text needs no rehash.
  pub verify-hash :
      {Db : Type 0} (password other : Text) (w v : World Db)
      → (h : Text) × (hash node password w ≡ (ok h, record w { draws = w.draws + 1 }))
        × (verify node h password v ≡ (ok true, v))
        × ((b : Bool) × (verify node h other v ≡ (ok b, v))
            × ((b ≡ true) ↔ (
                node.argon2id other (node.random_bytes w.draws salt_bytes) hash_bytes default_params
                ≡ node.argon2id password
                    (node.random_bytes w.draws salt_bytes)
                    hash_bytes
                    default_params)))
        × (needs_rehash node h ≡ false)
  verify-hash password other w v =
      let salt : Bytes = node.random_bytes w.draws salt_bytes in
      let long : length salt ≡ salt_bytes = laws.length-random_bytes w.draws salt_bytes in
      let (key, derived, size, written) = hash-eq password w in
      let (candidate, derived', size') =
        laws.argon2id_total other salt hash_bytes default_params (omega arith) (omega arith)
          (omega arith) (omega arith) (omega arith) in
      (
        phc_text node default_params salt key,
        written,
        verify-phc_text salt key key password v long size derived size
            ∙ ap (λ b. (ok b, v)) (text_eq_refl key),
        (
          text_eq candidate key,
          verify-phc_text salt key candidate other v long size derived' size',
          (
            λ e. derived' ∙ ap some ((text_eq_iff candidate key).0 e) ∙ sym derived,
            λ e. (text_eq_iff candidate key).1 (some_inj (sym derived' ∙ e ∙ derived)),
          ),
        ),
        needs_rehash-phc_text salt key long size,
      )

  -- A password is accepted exactly if its lower-case form is not in the list of common passwords
  -- and does not hold the lower-case text before the @ of the email, where that has at least 4
  -- units.
  pub assert_acceptable_iff :
      (common : List Text) (password : Text) (email : Text)
      → (assert_acceptable node common password (some email) ≡ ok tt) ↔ (
          All (λ c. c ≢ node.to_lower_case password) common
          × ¬ (
              (min_email_part ≤ length (node.to_lower_case (local_part email)))
              × Occurs (node.to_lower_case (local_part email)) (node.to_lower_case password)))
  unfolding assert_acceptable
  assert_acceptable_iff common password email =
      let normalized = node.to_lower_case password in
      let part = node.to_lower_case (local_part email) in
      (
        λ e. (
          any_text_sound normalized common (ground arith),
          λ (long, occurs). ground (arith, (includes_iff normalized part).1 occurs),
        ),
        λ (fresh, apart).
            rw (any_text_complete normalized common fresh) (part_apart normalized part apart),
      )
