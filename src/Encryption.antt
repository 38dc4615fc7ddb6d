-- ===== src/Encryption.antt =====
-- src/common/crypto/encryption.service.ts. `Number(version[1])` is taken exactly: versions are
-- below 2 ^ 53.
pub mod Laws
pub mod Tests
use Prim.Native.Nat.{max}
use baja_valle_service.Prelude.{
  ℕ, Bool, true, false, not, ◌&&◌, ◌||◌, Option, none, some, List, [], ◌∷◌, ◌==◌, if◌then◌else◌,
  length,
}
use baja_valle_service.Text.{Text, codes, split, join}
use baja_valle_service.Text.Decimal.{number, to_string}
use baja_valle_service.ParseId.{is_positive_integer}
use baja_valle_service.Node.{Node, Bytes}
use baja_valle_service.Exec.{Failure, Result, ok, err, Exec, ◌>>=◌, pure, lift}
use baja_valle_service.World.{World, random_bytes, or_throw}

abbrev pub iv_bytes : ℕ
iv_bytes = 12

abbrev pub tag_bytes : ℕ
tag_bytes = 16

-- Map<number, Buffer>
abbrev pub Keys : Type 0
Keys = List (ℕ × Bytes)

unfoldable pub get : Keys → ℕ → Option Bytes
get [] v = none
get ((u, key) ∷ keys) v = if u == v then some key else get keys v

-- Math.max(...keys.keys()), of at least one key
unfoldable pub current_version : Keys → ℕ
current_version [] = 0
current_version ((v, _) ∷ keys) = max v (current_version keys)

pub record Payload : Type 0 where
  pub version : ℕ
  pub iv : Bytes
  pub tag : Bytes
  pub ciphertext : Bytes

-- exec of /^v([1-9]\d*)$/, with its group
unfoldable pub parse_version : Text → Option Text
parse_version [] = none
parse_version (c ∷ s) = if c == b'v' && is_positive_integer s then some s else none

-- The text that `encrypt` joins.
unfoldable pub format : Node → Payload → Text
format node p = join b'.' (
    (b'v' ∷ to_string p.version)
    ∷ node.to_base64url p.iv
    ∷ node.to_base64url p.tag
    ∷ node.to_base64url p.ciphertext
    ∷ [])

check_lengths : Payload → Result Payload
check_lengths p =
    if not (length p.iv == iv_bytes) || not (length p.tag == tag_bytes)
    then err Failure.decryption_error
    else ok p

parse_parts : Node → List Text → Result Payload
unfolding check_lengths
parse_parts node (v ∷ iv ∷ tag ∷ ciphertext ∷ []) = elim (parse_version v) [
  | none ↦ err Failure.decryption_error
  | some digits ↦ check_lengths (record {
    version = number digits;
    iv = node.from_base64url iv;
    tag = node.from_base64url tag;
    ciphertext = node.from_base64url ciphertext;
  })
]
parse_parts node _ = err Failure.decryption_error

unfoldable pub parse : Node → Text → Result Payload
unfolding parse_parts parse_version
parse node payload = parse_parts node (split b'.' payload)

-- The sealed payload of a plaintext under a key and an iv.
unfoldable pub seal : Node → ℕ → Bytes → Bytes → Text → Text → Payload
seal node version key iv plaintext context =
    let (ciphertext, tag) =
      node.gcm_encrypt key iv (node.to_utf8 context) (node.to_utf8 plaintext) in
    record { version = version; iv = iv; tag = tag; ciphertext = ciphertext }

unfoldable pub encrypt : {Db : Type 0} → Node → Keys → Text → Text → Exec (World Db) Text
encrypt node keys plaintext context = do
  iv ← random_bytes node iv_bytes
  key ← or_throw (get keys (current_version keys)) (Failure.error (codes "Invalid key"))
  pure (format node (seal node (current_version keys) key iv plaintext context))

-- The body of `decrypt` behind the parser.
unfoldable pub open_payload : Node → Keys → Text → Payload → Result Text
open_payload node keys context p = elim (get keys p.version) [
  | none ↦ err Failure.decryption_error
  | some key ↦ elim (node.gcm_decrypt key p.iv (node.to_utf8 context) p.tag p.ciphertext) [
    | none ↦ err Failure.decryption_error
    | some plain ↦ ok (node.from_utf8 plain)
  ]
]

unfoldable pub decrypt : Node → Keys → Text → Text → Result Text
unfolding open_payload
decrypt node keys payload context = elim (parse node payload) [
  | err e ↦ err e
  | ok p ↦ open_payload node keys context p
]

unfoldable pub needs_reencryption : Node → Keys → Text → Result Bool
needs_reencryption node keys payload = elim (parse node payload) [
  | err e ↦ err e
  | ok p ↦ ok (not (p.version == current_version keys))
]

unfoldable pub reencrypt : {Db : Type 0} → Node → Keys → Text → Text → Exec (World Db) Text
reencrypt node keys payload context = do
  plaintext ← lift (decrypt node keys payload context)
  encrypt node keys plaintext context

-- `.update(context).update('\0').update(value)` of an HMAC
unfoldable pub blind_index : Node → Bytes → Text → Text → Text
blind_index node key value context =
    node.to_base64url (node.hmac_sha256 key (context ∷ (0 ∷ []) ∷ value ∷ []))
