-- ===== src/Node/Sample.antt =====
-- A Node.js for the witnesses: it meets the documented behaviour of `NodeLaws` with encodings that
-- can be computed. It models no code of the repository.
use baja_valle_service.Prelude.{
  ℕ, zero, suc, ◌+◌, ◌*◌, ◌≡◌, Bool, ◌||◌, ◌==◌, ◌≢◌, refl, sym, ap, ◌∙◌, true, ◌&&◌, some, List,
  [], ◌∷◌, ◌++◌, ◌==◌, leb, length, all, arith, if◌then◌else◌,
}
use baja_valle_service.Text.{Text, is_base64, strip_padding, strip_prefix}
use baja_valle_service.Text.Laws.{Lacks, strip_prefix-append}
use baja_valle_service.Node.{Node, NodeLaws, Bytes}

-- A byte in unary, ended by a B.
unfoldable pub encode_byte : ℕ → Text → Text
encode_byte zero rest = b'B' ∷ rest
encode_byte (suc n) rest = b'A' ∷ encode_byte n rest

unfoldable pub encode : Bytes → Text
unfolding encode_byte
encode [] = []
encode (n ∷ b) = encode_byte n (encode b)

unfoldable pub decode_from : ℕ → Text → Bytes
decode_from n [] = []
decode_from n (c ∷ s) = if c == b'A' then decode_from (suc n) s else n ∷ decode_from 0 s

decode-encode_byte :
    (k n : ℕ) (rest : Text) → decode_from k (encode_byte n rest) ≡ (k + n) ∷ decode_from 0 rest
unfolding decode_from encode_byte
decode-encode_byte k zero rest = ground arith
decode-encode_byte k (suc n) rest = ground (arith, decode-encode_byte (suc k) n rest)

decode-encode : (b : Bytes) → decode_from 0 (encode b) ≡ b
unfolding encode decode_from
decode-encode [] = refl
decode-encode (n ∷ b) = ground (arith, decode-encode_byte 0 n (encode b), decode-encode b)

encode_byte-Lacks :
    (c n : ℕ) (rest : Text) → c ≢ b'A' → c ≢ b'B' → Lacks c rest → Lacks c (encode_byte n rest)
unfolding encode_byte
encode_byte-Lacks c zero rest a b h = (λ e. b (sym e), h)
encode_byte-Lacks c (suc n) rest a b h = (λ e. a (sym e), encode_byte-Lacks c n rest a b h)

encode-Lacks : (c : ℕ) (b : Bytes) → c ≢ b'A' → c ≢ b'B' → Lacks c (encode b)
unfolding encode
encode-Lacks c [] h k = tt
encode-Lacks c (n ∷ b) h k = encode_byte-Lacks c n (encode b) h k (encode-Lacks c b h k)

strip_padding_of_Lacks : (s : Text) → Lacks b'=' s → strip_padding s ≡ s
unfolding strip_padding
strip_padding_of_Lacks [] h = refl
strip_padding_of_Lacks (c ∷ []) h = ground arith
strip_padding_of_Lacks (c ∷ d ∷ s) (h, k) = rw (strip_padding_of_Lacks (d ∷ s) k) refl

encode_byte_alphabet :
    (n : ℕ) (rest : Text) → all is_base64 rest ≡ true → all is_base64 (encode_byte n rest) ≡ true
unfolding encode_byte is_base64
encode_byte_alphabet zero rest h = h
encode_byte_alphabet (suc n) rest h = encode_byte_alphabet n rest h

encode_alphabet : (b : Bytes) → all is_base64 (encode b) ≡ true
unfolding encode
encode_alphabet [] = refl
encode_alphabet (n ∷ b) = encode_byte_alphabet n (encode b) (encode_alphabet b)

all_weaken :
    (p q : ℕ → Bool) (s : Text)
    → ((c : ℕ) → p c ≡ true → q c ≡ true)
    → all p s ≡ true
    → all q s ≡ true
all_weaken p q [] f h = refl
all_weaken p q (c ∷ s) f h = ground (arith, f c, all_weaken p q s f)

encode_alphabet_padded : (b : Bytes) → all (λ c. is_base64 c || c == b'=') (encode b) ≡ true
encode_alphabet_padded b =
    all_weaken is_base64 (λ c. is_base64 c || c == b'=') (encode b) (λ c h. ground arith)
      (encode_alphabet b)

unfoldable pub copies : ℕ → ℕ → Bytes
copies zero n = []
copies (suc k) n = n ∷ copies k n

pub length-copies : (k n : ℕ) → length (copies k n) ≡ k
unfolding copies
length-copies zero n = refl
length-copies (suc k) n = ap suc (length-copies k n)

-- A text cut or padded to a size.
unfoldable pub fit : ℕ → Text → Bytes
fit zero s = []
fit (suc k) [] = 0 ∷ fit k []
fit (suc k) (c ∷ s) = c ∷ fit k s

pub length-fit : (k : ℕ) (s : Text) → length (fit k s) ≡ k
unfolding fit
length-fit zero s = refl
length-fit (suc k) [] = ap suc (length-fit k [])
length-fit (suc k) (c ∷ s) = ap suc (length-fit k s)

lower : Text → Text
lower [] = []
lower (c ∷ s) = (if leb b'A' c && leb c b'Z' then c + 32 else c) ∷ lower s

concat : List Text → Text
concat [] = []
concat (t ∷ ts) = t ++ (0 ∷ concat ts)

unfoldable pub sample : Node
unfolding copies fit lower concat encode decode_from strip_prefix
sample = record {
  clock = λ n. n * 1000;
  random_bytes = λ n size. copies size n;
  random_uuid = λ n. n;
  to_lower_case = lower;
  to_base64 = encode;
  from_base64 = decode_from 0;
  to_hex = λ b. b;
  to_base64url = encode;
  from_base64url = decode_from 0;
  to_utf8 = λ t. t;
  from_utf8 = λ b. b;
  sha256 = λ t. t;
  hmac_sha256 = λ key parts. concat parts;
  gcm_encrypt = λ key iv aad plain. (aad ++ plain, copies 16 0);
  gcm_decrypt = λ key iv aad tag cipher. strip_prefix aad cipher;
  argon2id = λ message nonce size params. some (fit size message);
}

pub sample_laws : NodeLaws sample
unfolding sample
sample_laws = record {
  IsText = λ t. Unit;
  length-random_bytes = λ n size. length-copies size n;
  utf8_lem = λ t h. refl;
  to_hex_injective = λ a b e. e;
  base64url_lem = decode-encode;
  base64url-Lacks = λ b. encode-Lacks b'.' b (λ e. omega arith) (λ e. omega arith);
  gcm_lem = λ key iv aad plain. strip_prefix-append aad plain;
  length-tag = λ key iv aad plain. length-copies 16 0;
  base64_lem = λ b.
      ap (decode_from 0) (
        strip_padding_of_Lacks (encode b)
          (encode-Lacks b'=' b (λ e. omega arith) (λ e. omega arith)))
      ∙ decode-encode b;
  base64_alphabet = λ b.
      ap (all is_base64) (
        strip_padding_of_Lacks (encode b)
          (encode-Lacks b'=' b (λ e. omega arith) (λ e. omega arith)))
      ∙ encode_alphabet b;
  from_base64-to_base64 = decode-encode;
  to_base64_alphabet = encode_alphabet_padded;
  from_base64-nil = refl;
  argon2id_total =
      λ message nonce size params h1 h2 h3 h4 h5. (fit size message, refl, length-fit size message);
}

pub sample-IsText : (t : Text) → sample_laws.IsText t
unfolding sample_laws
sample-IsText t = tt
