-- ===== src/Text/Laws.antt =====
-- Equality of texts, and `split` against `join`.
use baja_valle_service.Prelude.{
  ℕ, ◌≡◌, ◌≢◌, ◌↔◌, refl, ap, ◌∙◌, Bool, true, false, List, [], ◌∷◌, ◌++◌, arith, All, all, some,
  inl, inr, Bool-cases,
}
use baja_valle_service.Text.{Text, text_eq, split, join, strip_prefix, span, is_prefix, includes}

text_eq_sound : (s t : Text) → text_eq s t ≡ true → s ≡ t
text_eq_sound [] [] h = refl
text_eq_sound [] (_ ∷ _) h = cc
text_eq_sound (_ ∷ _) [] h = cc
text_eq_sound (a ∷ s) (b ∷ t) h = ground (arith, text_eq_sound s t)

pub text_eq_refl : (s : Text) → text_eq s s ≡ true
text_eq_refl [] = refl
text_eq_refl (a ∷ s) = ground (arith, text_eq_refl s)

pub text_eq_iff : (s t : Text) → (text_eq s t ≡ true) ↔ (s ≡ t)
text_eq_iff s t = (text_eq_sound s t, λ e. rw (← e) (text_eq_refl s))

-- The unit does not occur in the text.
abbrev pub Lacks : ℕ → Text → Type 0
Lacks c [] = Unit
Lacks c (d ∷ s) = (d ≢ c) × Lacks c s

split_of_Lacks : (sep : ℕ) (part : Text) → Lacks sep part → split sep part ≡ part ∷ []
unfolding split
split_of_Lacks sep [] h = refl
split_of_Lacks sep (c ∷ s) h = ground (arith, split_of_Lacks sep s h.1)

split-append :
    (sep : ℕ) (part rest : Text)
    → Lacks sep part
    → split sep (part ++ (sep ∷ rest)) ≡ part ∷ split sep rest
unfolding split
split-append sep [] rest h = ground arith
split-append sep (c ∷ s) rest h = ground (arith, split-append sep s rest h.1)

-- Splitting what was joined gives the parts back, if none of them holds the separator.
pub split-join :
    (sep : ℕ) (part : Text) (parts : List Text)
    → All (Lacks sep) (part ∷ parts)
    → split sep (join sep (part ∷ parts)) ≡ part ∷ parts
unfolding join
split-join sep part [] h = split_of_Lacks sep part h.0
split-join sep part (next ∷ parts) h =
    split-append sep part (join sep (next ∷ parts)) h.0
    ∙ ap (λ r. part ∷ r) (split-join sep next parts h.1)

pub strip_prefix-append : (p s : Text) → strip_prefix p (p ++ s) ≡ some s
unfolding strip_prefix
strip_prefix-append [] s = refl
strip_prefix-append (c ∷ p) s = ground (arith, strip_prefix-append p s)

-- Units of a class before one outside it are what `span` takes.
pub span-append :
    (p : ℕ → Bool) (front : Text) (c : ℕ) (rest : Text)
    → all p front ≡ true
    → p c ≡ false
    → span p (front ++ c ∷ rest) ≡ (front, c ∷ rest)
unfolding span
span-append p [] c rest h k = ground arith
span-append p (d ∷ front) c rest h k = ground (arith, span-append p front c rest)

pub span-all : (p : ℕ → Bool) (s : Text) → all p s ≡ true → span p s ≡ (s, [])
unfolding span
span-all p [] h = refl
span-all p (c ∷ s) h = ground (arith, span-all p s)

is_prefix_sound : (part s : Text) → is_prefix part s ≡ true → (post : Text) × (s ≡ part ++ post)
is_prefix_sound [] s h = (s, refl)
is_prefix_sound (a ∷ part) [] h = cc
is_prefix_sound (a ∷ part) (b ∷ s) h =
    let (post, e) = is_prefix_sound part s (ground arith) in (post, ground arith)

is_prefix-append : (part post : Text) → is_prefix part (part ++ post) ≡ true
is_prefix-append [] post = refl
is_prefix-append (a ∷ part) post = ground (arith, is_prefix-append part post)

-- `part` stands somewhere in `s`.
abbrev pub Occurs : Text → Text → Type 0
Occurs part s = (pre : Text) × (post : Text) × (s ≡ pre ++ (part ++ post))

includes_sound : (s part : Text) → includes s part ≡ true → Occurs part s
unfolding includes
includes_sound [] part h = let (post, e) = is_prefix_sound part [] h in ([], post, e)
includes_sound (c ∷ s) part h = elim (Bool-cases (is_prefix part (c ∷ s))) [
  | inl here ↦ let (post, e) = is_prefix_sound part (c ∷ s) here in ([], post, e)
  | inr later ↦
      let (pre, post, e) = includes_sound s part (ground arith) in
      (c ∷ pre, post, ap (λ t. c ∷ t) e)
]

includes_of_prefix : (part s : Text) → is_prefix part s ≡ true → includes s part ≡ true
unfolding includes
includes_of_prefix part [] h = h
includes_of_prefix part (c ∷ s) h = ground arith

includes_complete : (pre part post : Text) → includes (pre ++ (part ++ post)) part ≡ true
unfolding includes
includes_complete [] part post = includes_of_prefix part (part ++ post) (is_prefix-append part post)
includes_complete (c ∷ pre) part post = ground (arith, includes_complete pre part post)

-- `s.includes(part)` is true exactly if the part stands in the text.
pub includes_iff : (s part : Text) → (includes s part ≡ true) ↔ Occurs part s
includes_iff s part =
    (includes_sound s part, λ (pre, post, e). rw e (includes_complete pre part post))
