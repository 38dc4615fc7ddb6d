-- ===== src/Mail/Laws.antt =====
-- What the page of a contact mail contains.
use baja_valle_service.Prelude.{
  ℕ, ◌≡◌, ◌≢◌, refl, sym, Bool, true, false, ◌&&◌, [], ◌∷◌, ◌++◌, arith, ◌==◌, ==_iff,
  if◌then◌else◌, All,
}
use mathlib.Core.Path.{subst}
use baja_valle_service.Text.{Text, codes}
use baja_valle_service.EscapeHtml.{escape_html}
use baja_valle_service.EscapeHtml.Laws.{IsInert, escape_html-IsInert}
use baja_valle_service.Mail.Html.{
  ContactMailDto, line_break, break_lines, contact_template, build_contact_html,
}

-- A text whose only markup is the line break.
pub data IsFlat : Text → Type 0 where
  empty : IsFlat []
  char : (c : ℕ) (s : Text) → IsInert c → c ≢ 10 → IsFlat s → IsFlat (c ∷ s)
  line : (s : Text) → IsFlat s → IsFlat (line_break ++ s)

if_holds :
    (P : Text → Type 0) (b : Bool) (s t : Text)
    → (b ≡ true → P s)
    → (b ≡ false → P t)
    → P (if b then s else t)
if_holds P true s t h k = h refl
if_holds P false s t h k = k refl

break_lines-IsFlat : (s : Text) → All IsInert s → IsFlat (break_lines s)
unfolding break_lines
break_lines-IsFlat [] h = IsFlat.empty
break_lines-IsFlat (c ∷ []) (p, h) =
    if_holds IsFlat (c == 10) line_break (c ∷ []) (λ e. IsFlat.line [] IsFlat.empty)
      (λ e. IsFlat.char c [] p (λ same. ground (arith, ==_iff c 10)) IsFlat.empty)
break_lines-IsFlat (c ∷ d ∷ s) (p, h) =
    let rest = break_lines-IsFlat (d ∷ s) h in
    if_holds IsFlat (c == 10) (line_break ++ break_lines (d ∷ s)) _ (λ e. IsFlat.line _ rest)
      (λ e.
        if_holds IsFlat (c == 13 && d == 10) (break_lines (d ∷ s)) (c ∷ break_lines (d ∷ s))
          (λ k. rest) (λ k. IsFlat.char c _ p (λ same. ground (arith, ==_iff c 10)) rest))

-- A text with a line break in place of each line feed, the carriage return in front of it included,
-- and each other character kept.
pub data IsBroken : Text → Text → Type 0 where
  empty : IsBroken [] []
  line_feed : (s t : Text) → IsBroken s t → IsBroken (10 ∷ s) (line_break ++ t)
  return_and_feed : (s t : Text) → IsBroken (10 ∷ s) t → IsBroken (13 ∷ 10 ∷ s) t
  char :
      (c : ℕ) (s t : Text)
      → c ≢ 10
      → ((r : Text) → c ≡ 13 → s ≢ 10 ∷ r)
      → IsBroken s t
      → IsBroken (c ∷ s) (c ∷ t)

return_broken :
    (c d : ℕ) (s t : Text) → c ≡ 13 → d ≡ 10 → IsBroken (d ∷ s) t → IsBroken (c ∷ d ∷ s) t
return_broken c d s t e f h =
    subst (λ x. IsBroken (x ∷ d ∷ s) t) (sym e)
      (subst (λ y. IsBroken (y ∷ s) t → IsBroken (13 ∷ y ∷ s) t) (sym f)
        (IsBroken.return_and_feed s t) h)

break_lines-IsBroken : (s : Text) → IsBroken s (break_lines s)
unfolding break_lines
break_lines-IsBroken [] = IsBroken.empty
break_lines-IsBroken (c ∷ []) =
    if_holds (IsBroken (c ∷ [])) (c == 10) line_break (c ∷ [])
      (λ e.
        subst (λ x. IsBroken (x ∷ []) line_break) (sym ((==_iff c 10).0 e))
          (IsBroken.line_feed [] [] IsBroken.empty))
      (λ e.
        IsBroken.char c [] [] (λ same. ground (arith, ==_iff c 10)) (λ r same. cc) IsBroken.empty)
break_lines-IsBroken (c ∷ d ∷ s) =
    let rest = break_lines (d ∷ s) in
    let broken : IsBroken (d ∷ s) rest = break_lines-IsBroken (d ∷ s) in
    if_holds (IsBroken (c ∷ d ∷ s)) (c == 10) (line_break ++ rest) _
      (λ e.
        subst (λ x. IsBroken (x ∷ d ∷ s) (line_break ++ rest)) (sym ((==_iff c 10).0 e))
          (IsBroken.line_feed (d ∷ s) rest broken))
      (λ e.
        if_holds (IsBroken (c ∷ d ∷ s)) (c == 13 && d == 10) rest (c ∷ rest)
          (λ k.
            return_broken c d s rest ((==_iff c 13).0 (ground arith))
              ((==_iff d 10).0 (ground arith)) broken)
          (λ k.
            IsBroken.char c (d ∷ s) rest (λ same. ground (arith, ==_iff c 10))
              (λ r h same. ground (arith, ==_iff c 13, ==_iff d 10)) broken))

-- The page of a contact mail: the template with the name, the address and the message of the request,
-- of which none can open a tag but for the line breaks of the message.
pub record IsPage (dto : ContactMailDto) (html : Text) : Type 0 where
  pub message : Text
  pub written :
      html
      ≡ contact_template
          (escape_html (dto.nombre ++ (codes " " ++ dto.apellido)))
          (escape_html dto.correo)
          message
  pub broken : IsBroken (escape_html dto.mensaje) message
  pub name_inert : All IsInert (escape_html (dto.nombre ++ (codes " " ++ dto.apellido)))
  pub address_inert : All IsInert (escape_html dto.correo)
  pub message_flat : IsFlat message

-- The page of a contact mail is the template with the escaped name, the escaped address and the escaped
-- message, the latter with a line break in place of each line feed and of the carriage return in front
-- of it. Whatever a visitor enters, the name and the address are inert, and the only markup of the
-- message is the line break.
pub build_contact_html-IsPage : (dto : ContactMailDto) → IsPage dto (build_contact_html dto)
unfolding build_contact_html
build_contact_html-IsPage dto = record {
  message = break_lines (escape_html dto.mensaje);
  written = refl;
  broken = break_lines-IsBroken (escape_html dto.mensaje);
  name_inert = escape_html-IsInert (dto.nombre ++ (codes " " ++ dto.apellido));
  address_inert = escape_html-IsInert dto.correo;
  message_flat = break_lines-IsFlat (escape_html dto.mensaje) (escape_html-IsInert dto.mensaje);
}
