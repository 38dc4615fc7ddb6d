-- ===== src/Password/Phc/Laws.antt =====
-- The pattern matches what the template literal of `hash` writes, with its parts as the groups.
use baja_valle_service.Prelude.{ℕ, ◌≡◌, ◌≢◌, refl, Bool, true, false, some, [], ◌∷◌, ◌++◌, all}
use baja_valle_service.Text.{Text, codes, is_digit, is_base64}
use baja_valle_service.Text.Laws.{strip_prefix-append, span-append, span-all}
use baja_valle_service.Text.Decimal.{
  to_string, to_string-ne-nil, number-to_string, digits-to_string,
}
use baja_valle_service.Password.Phc.{exec, group}

group-append :
    (p : ℕ → Bool) (front : Text) (c : ℕ) (rest : Text)
    → front ≢ []
    → all p front ≡ true
    → p c ≡ false
    → group p (front ++ c ∷ rest) ≡ some (front, c ∷ rest)
unfolding group
group-append p [] c rest n h k = absurd (n refl)
group-append p (d ∷ front) c rest n h k = rw (span-append p (d ∷ front) c rest h k)

group-all : (p : ℕ → Bool) (s : Text) → s ≢ [] → all p s ≡ true → group p s ≡ some (s, [])
unfolding group
group-all p [] n h = absurd (n refl)
group-all p (c ∷ s) n h = rw (span-all p (c ∷ s) h)

dollar : is_base64 b'$' ≡ false
unfolding is_base64
dollar = refl

pub exec-phc :
    (m t p : ℕ) (salt key : Text)
    → salt ≢ []
    → key ≢ []
    → all is_base64 salt ≡ true
    → all is_base64 key ≡ true
    → exec (
        codes "$argon2id$v=19$m="
        ++ (to_string m
            ++ (codes ",t="
                ++ (to_string t
                    ++ (codes ",p=" ++ (to_string p ++ (b'$' ∷ (salt ++ (b'$' ∷ key)))))))))
      ≡ some (record { memory = m; passes = t; parallelism = p; salt = salt; hash = key })
unfolding exec
exec-phc m t p salt key ns nk bs bk =
    let digits = λ (n : ℕ). digits-to_string n in
    rw (
      strip_prefix-append (codes "$argon2id$v=19$m=") _,
      group-append is_digit (to_string m) b',' _ (to_string-ne-nil m) (digits m) refl,
      strip_prefix-append (codes ",t=") _,
      group-append is_digit (to_string t) b',' _ (to_string-ne-nil t) (digits t) refl,
      strip_prefix-append (codes ",p=") _,
      group-append is_digit (to_string p) b'$' _ (to_string-ne-nil p) (digits p) refl,
      strip_prefix-append (codes "$") (salt ++ (b'$' ∷ key)),
      group-append is_base64 salt b'$' key ns bs dollar,
      strip_prefix-append (codes "$") key,
      group-all is_base64 key nk bk,
      number-to_string m,
      number-to_string t,
      number-to_string p,
    )
