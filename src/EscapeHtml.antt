-- ===== src/EscapeHtml.antt =====
-- src/common/utils/escape-html.ts
pub mod Laws
use baja_valle_service.Prelude.{ℕ, [], ◌∷◌, ◌++◌, ◌==◌, if◌then◌else◌}
use baja_valle_service.Text.{Text, codes}

-- `HTML_ESCAPES[char]` on the characters of the class [&<>"'], and the rest unchanged.
unfoldable pub escape_char : ℕ → Text
escape_char c =
    if c == b'&'
    then codes "&amp;"
    else if c == b'<'
    then codes "&lt;"
    else if c == b'>'
    then codes "&gt;"
    else if c == 34
    then codes "&quot;"
    else if c == 39
    then codes "&#39;"
    else c ∷ []

unfoldable pub escape_html : Text → Text
unfolding escape_char
escape_html [] = []
escape_html (c ∷ s) = escape_char c ++ escape_html s
