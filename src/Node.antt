-- ===== src/Node.antt =====
-- What the program takes from Node.js (node:crypto, Buffer, Date, String), as parameters with the
-- documented behaviour that it relies on. Nothing of it is under the repository.
pub mod Sample
use baja_valle_service.Prelude.{
  ℕ, ◌*◌, ◌≤◌, ◌≡◌, true, ◌||◌, ◌==◌, Option, some, List, [], length, all,
}
use baja_valle_service.Text.{Text, strip_padding, is_base64}
use baja_valle_service.Text.Laws.{Lacks}

abbrev pub Bytes : Type 0
Bytes = List ℕ

-- The options of `argon2` beside message, nonce and tagLength.
pub record Argon2Params : Type 0 where
  pub memory : ℕ
  pub passes : ℕ
  pub parallelism : ℕ

pub record Node : Type 0 where
  -- Reading number n of the clock, and draw number n of the random generators.
  pub clock : ℕ → ℕ
  pub random_bytes : ℕ → ℕ → Bytes
  pub random_uuid : ℕ → ℕ
  pub to_lower_case : Text → Text
  pub to_base64 : Bytes → Text
  pub from_base64 : Text → Bytes
  -- toString('hex')
  pub to_hex : Bytes → Text
  pub to_base64url : Bytes → Text
  pub from_base64url : Text → Bytes
  pub to_utf8 : Text → Bytes
  pub from_utf8 : Bytes → Text
  pub sha256 : Text → Bytes
  -- createHmac('sha256', key) after one `update` for each text of the list
  pub hmac_sha256 : Bytes → List Text → Bytes
  -- key, iv, AAD, plaintext ↦ ciphertext and tag
  pub gcm_encrypt : Bytes → Bytes → Bytes → Bytes → Bytes × Bytes
  -- key, iv, AAD, tag, ciphertext; `none` is the throw of `final`
  pub gcm_decrypt : Bytes → Bytes → Bytes → Bytes → Bytes → Option Bytes
  -- message, nonce, tagLength; `none` is a rejection of the parameters
  pub argon2id : Text → Bytes → ℕ → Argon2Params → Option Bytes

-- The documented behaviour. `IsText t` marks the strings that UTF-8 can carry, those without a lone
-- surrogate.
pub record NodeLaws (node : Node) : Type 1 where
  pub IsText : Text → Type 0
  pub length-random_bytes : (n size : ℕ) → length (node.random_bytes n size) ≡ size
  pub utf8_lem : (t : Text) → IsText t → node.from_utf8 (node.to_utf8 t) ≡ t
  pub to_hex_injective : (a b : Bytes) → node.to_hex a ≡ node.to_hex b → a ≡ b
  pub base64url_lem : (b : Bytes) → node.from_base64url (node.to_base64url b) ≡ b
  pub base64url-Lacks : (b : Bytes) → Lacks b'.' (node.to_base64url b)
  pub gcm_lem :
      (key iv aad plain : Bytes)
      → let (cipher, tag) = node.gcm_encrypt key iv aad plain in
        node.gcm_decrypt key iv aad tag cipher ≡ some plain
  pub length-tag : (key iv aad plain : Bytes) → length (node.gcm_encrypt key iv aad plain).1 ≡ 16
  -- The decoder accepts a text without its padding.
  pub base64_lem : (b : Bytes) → node.from_base64 (strip_padding (node.to_base64 b)) ≡ b
  pub base64_alphabet : (b : Bytes) → all is_base64 (strip_padding (node.to_base64 b)) ≡ true
  -- The text of the encoder, with its padding, is read back, and is over the alphabet.
  pub from_base64-to_base64 : (b : Bytes) → node.from_base64 (node.to_base64 b) ≡ b
  pub to_base64_alphabet :
      (b : Bytes) → all (λ c. is_base64 c || c == b'=') (node.to_base64 b) ≡ true
  pub from_base64-nil : node.from_base64 [] ≡ []
  -- The parameters that RFC 9106 and Node.js admit.
  pub argon2id_total :
      (message : Text) (nonce : Bytes) (size : ℕ) (params : Argon2Params)
      → 8 ≤ length nonce
      → 4 ≤ size
      → 8 * params.parallelism ≤ params.memory
      → 1 ≤ params.passes
      → 1 ≤ params.parallelism
      → (b : Bytes) × (node.argon2id message nonce size params ≡ some b) × (length b ≡ size)
