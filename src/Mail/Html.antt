-- ===== src/Mail/Html.antt =====
-- `buildContactHtml` of src/mail/mail.service.ts.
use baja_valle_service.Prelude.{[], ◌∷◌, ◌++◌, ◌&&◌, ◌==◌, if◌then◌else◌}
use baja_valle_service.Text.{Text, codes}
use baja_valle_service.EscapeHtml.{escape_html}

pub record ContactMailDto : Type 0 where
  pub nombre : Text
  pub apellido : Text
  pub correo : Text
  pub mensaje : Text

abbrev pub line_break : Text
line_break = codes "<br />"

-- text.replace(/\r?\n/g, '<br />'): a carriage return goes only with the line feed behind it.
unfoldable pub break_lines : Text → Text
break_lines [] = []
break_lines (c ∷ []) = if c == 10 then line_break else c ∷ []
break_lines (c ∷ d ∷ s) =
    let rest = break_lines (d ∷ s) in
    if c == 10 then line_break ++ rest else if c == 13 && d == 10 then rest else c ∷ rest

-- The template literal around the three texts.
unfoldable pub contact_template : Text → Text → Text → Text
contact_template nombre correo mensaje =
    codes "\n      <h2>Nuevo mensaje de contacto</h2>\n      <p><strong>Nombre:</strong> "
    ++ (nombre
        ++ (codes "</p>\n      <p><strong>Correo:</strong> "
            ++ (correo
                ++ (codes "</p>\n      <hr />\n      <p><strong>Mensaje:</strong></p>\n      <p>"
                    ++ (mensaje ++ codes "</p>\n    ")))))

unfoldable pub build_contact_html : ContactMailDto → Text
build_contact_html dto =
    contact_template (escape_html (dto.nombre ++ (codes " " ++ dto.apellido)))
      (escape_html dto.correo) (break_lines (escape_html dto.mensaje))
