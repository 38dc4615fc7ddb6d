-- ===== src/Password.antt =====
-- src/auth/password.service.ts. The list common-passwords.txt is an argument. `Number` of a group of
-- digits is taken exactly. A rejected promise that stays in the field `dummyHash` is not modelled.
pub mod Phc
pub mod Laws
pub mod Dummy
pub mod Tests
use baja_valle_service.Prelude.{
  ℕ, ◌^◌, Bool, true, false, not, ◌&&◌, ◌||◌, Option, none, some, List, [], ◌∷◌, ◌++◌, ltb, leb,
  ◌==◌, if◌then◌else◌, length, any,
}
use baja_valle_service.Text.{Text, codes, text_eq, split, includes, strip_padding}
use baja_valle_service.Text.Decimal.{to_string}
use baja_valle_service.Node.{Node, Bytes, Argon2Params}
use baja_valle_service.Exec.{
  HttpException, Failure, Result, ok, err, Exec, ◌>>=◌, ◌>>◌, pure, lift, throw_if,
}
use baja_valle_service.World.{World, random_bytes, or_throw}
use baja_valle_service.Password.Phc.{Groups, exec}

-- PARAMS
abbrev pub default_params : Argon2Params
default_params = record { memory = 19456; passes = 2; parallelism = 1 }

abbrev pub version : ℕ
version = 19

abbrev pub salt_bytes : ℕ
salt_bytes = 16

abbrev pub hash_bytes : ℕ
hash_bytes = 32

abbrev pub max_memory : ℕ
max_memory = 2 ^ 20

abbrev pub min_email_part : ℕ
min_email_part = 4

-- The value that the private method `parse` returns.
pub record Parsed : Type 0 where
  pub params : Argon2Params
  pub salt : Bytes
  pub hash : Bytes

abbrev pub params_of : Groups → Argon2Params
params_of g = record { memory = g.memory; passes = g.passes; parallelism = g.parallelism }

unfoldable pub check_params : Node → Groups → Option Parsed
check_params node g =
    if ltb max_memory g.memory || ltb g.passes 1 || ltb g.parallelism 1
    then none
    else some (record {
      params = params_of g;
      salt = node.from_base64 g.salt;
      hash = node.from_base64 g.hash;
    })

unfoldable pub parse : Node → Text → Option Parsed
unfolding check_params
parse node stored = elim (exec stored) [ none ↦ none | some g ↦ check_params node g ]

derive : {Db : Type 0} → Node → Text → Bytes → Argon2Params → Exec (World Db) Bytes
derive node password salt params =
    or_throw (node.argon2id password salt hash_bytes params) (Failure.error (codes "argon2"))

-- The template literal of `hash`.
unfoldable pub phc_text : Node → Argon2Params → Bytes → Bytes → Text
phc_text node params salt hash =
    codes "$argon2id$v="
    ++ (to_string version
        ++ (codes "$m="
            ++ (to_string params.memory
                ++ (codes ",t="
                    ++ (to_string params.passes
                        ++ (codes ",p="
                            ++ (to_string params.parallelism
                                ++ (b'$'
                                    ∷ (strip_padding (node.to_base64 salt)
                                        ++ (b'$' ∷ strip_padding (node.to_base64 hash)))))))))))

unfoldable pub hash : {Db : Type 0} → Node → Text → Exec (World Db) Text
unfolding derive
hash node password = do
  salt ← random_bytes node salt_bytes
  derived ← derive node password salt default_params
  pure (phc_text node default_params salt derived)

-- Buffers are compared as texts of bytes.
unfoldable pub verify : {Db : Type 0} → Node → Text → Text → Exec (World Db) Bool
unfolding derive
verify node stored password = elim (parse node stored) [
  | none ↦ pure false
  | some parsed ↦ do
    candidate ← derive node password parsed.salt parsed.params
    pure (length candidate == length parsed.hash && text_eq candidate parsed.hash)
]

abbrev keep_dummy : {Db : Type 0} → Text → Exec (World Db) Text
keep_dummy h w = (ok h, record w { dummy_hash = some h })

-- `this.dummyHash ??= this.hash(…)`
dummy_hash : {Db : Type 0} → Node → Option Text → Exec (World Db) Text
dummy_hash node (some h) = pure h
dummy_hash node none = do
  seed ← random_bytes node 32
  h ← hash node (node.to_base64 seed)
  keep_dummy h

unfoldable pub verify_against_dummy : {Db : Type 0} → Node → Text → Exec (World Db) (Unit {0})
unfolding dummy_hash
verify_against_dummy node password w =
    (do stored ← dummy_hash node w.dummy_hash; verify node stored password; pure tt) w

unfoldable pub needs_rehash : Node → Text → Bool
needs_rehash node stored = elim (parse node stored) [
  | none ↦ true
  | some parsed ↦
      ltb parsed.params.memory default_params.memory
      || ltb parsed.params.passes default_params.passes
      || ltb parsed.params.parallelism default_params.parallelism
]

-- s.split('@')[0]
unfoldable pub local_part : Text → Text
local_part email = elim (split b'@' email) [ [] ↦ [] | part ∷ _ ↦ part ]

abbrev pub local_part? : Node → Option Text → Text
local_part? node none = []
local_part? node (some email) = node.to_lower_case (local_part email)

abbrev pub too_common : Failure
too_common =
    Failure.http (HttpException.bad_request (codes "La contraseña es demasiado común; elige otra"))

abbrev pub holds_email : Failure
holds_email =
    Failure.http (HttpException.bad_request (codes "La contraseña no puede contener tu correo"))

unfoldable pub assert_acceptable : Node → List Text → Text → Option Text → Result (Unit {0})
assert_acceptable node common password email =
    let normalized = node.to_lower_case password in
    let part = local_part? node email in
    if any (text_eq normalized) common
    then err too_common
    else if leb min_email_part (length part) && includes normalized part
    then err holds_email
    else ok tt
