-- ===== src/EscapeHtml/Laws.antt =====
-- What the escaping guarantees to a template, and that nothing of the text is lost.
use baja_valle_service.Prelude.{ℕ, ◌≡◌, ◌≢◌, refl, sym, [], ◌∷◌, ◌++◌, arith, All, All-append}
use baja_valle_service.Text.{Text}
use baja_valle_service.EscapeHtml.{escape_char, escape_html}

-- A unit that can neither open or close a tag nor end an attribute value.
abbrev pub IsInert : ℕ → Type 0
IsInert c = (c ≢ b'<') × (c ≢ b'>') × (c ≢ 34) × (c ≢ 39)

escape_char-IsInert : (c : ℕ) → All IsInert (escape_char c)
unfolding escape_char
escape_char-IsInert c = ground arith

-- The escaped text holds none of the characters < > " and '.
pub escape_html-IsInert : (s : Text) → All IsInert (escape_html s)
unfolding escape_html
escape_html-IsInert [] = tt
escape_html-IsInert (c ∷ s) =
    All-append IsInert (escape_char c) _ (escape_char-IsInert c) (escape_html-IsInert s)

-- No escaped character is a proper prefix of another.
escape_char_head :
    (c d : ℕ) (s t : Text) → escape_char c ++ s ≡ escape_char d ++ t → (c ≡ d) × (s ≡ t)
unfolding escape_char
escape_char_head c d s t e = ground arith

escape_char-ne-nil : (c : ℕ) (s : Text) → escape_char c ++ s ≢ []
unfolding escape_char
escape_char-ne-nil c s e = ground arith

-- Different texts are escaped differently: the escaping loses nothing.
pub escape_html_injective : (s t : Text) → escape_html s ≡ escape_html t → s ≡ t
unfolding escape_html
escape_html_injective [] [] e = refl
escape_html_injective [] (d ∷ t) e = absurd (escape_char-ne-nil d (escape_html t) (sym e))
escape_html_injective (c ∷ s) [] e = absurd (escape_char-ne-nil c (escape_html s) e)
escape_html_injective (c ∷ s) (d ∷ t) e =
    let (same, rest) = escape_char_head c d (escape_html s) (escape_html t) e in
    cc (escape_html_injective s t rest)
