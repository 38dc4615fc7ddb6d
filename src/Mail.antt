-- ===== src/Mail.antt =====
-- src/mail/mail.service.ts, with the DTOs of src/mail/dto. The transport of nodemailer, the writer of
-- exceljs, the locale's dates and the numbers of JavaScript are arguments.
pub mod Html
pub mod Sheet
pub mod Workbook
pub mod Laws
pub mod Runs
pub mod Tests
use baja_valle_service.Prelude.{
  ℕ, zero, suc, ◌+◌, ◌-◌, ◌/◌, ◌%◌, Option, none, some, List, [], ◌∷◌, ◌++◌, ltb, if◌then◌else◌,
}
use baja_valle_service.Text.{Text, codes}
use baja_valle_service.Node.{Bytes}
use baja_valle_service.Exec.{
  HttpException, Failure, Result, ok, err, Exec, ◌>>=◌, ◌>>◌, pure, throw, lift, catch,
}
use baja_valle_service.Mail.Html.{ContactMailDto, build_contact_html}
use baja_valle_service.Mail.Workbook.{build_cart_workbook}
use baja_valle_service.Mail.Sheet.{Numbers, CartMailDto, Call}

abbrev pub sender_name : Text
sender_name = codes "Baja Valle App"

pub record Attachment : Type 0 where
  pub filename : Text
  pub content : Bytes
  pub content_type : Text

-- The argument of `sendMail`; what is left out is `none`.
pub record Message : Type 0 where
  pub from : Text
  pub to : Text
  pub reply_to : Text
  pub subject : Text
  pub html : Option Text
  pub text : Option Text
  pub attachments : List Attachment

abbrev pub contact_failed : Failure
contact_failed =
    Failure.http
      (HttpException.internal_server_error (codes "No se pudo enviar el correo de contacto"))

abbrev pub cart_failed : Failure
cart_failed =
    Failure.http
      (HttpException.internal_server_error (codes "No se pudo enviar el correo de cotización"))

-- What the service is built on, over a state S of the outside world.
pub record Mailer (S : Type 0) : Type 1 where
  pub mail_user : Text
  pub mail_to : Text
  pub send_mail : Message → Exec S (Unit {0})
  -- Date.now(), and new Date()
  pub now : Exec S ℕ
  -- toLocaleDateString('es-MX', …)
  pub locale_date : ℕ → Text
  pub numbers : Numbers
  -- workbook.xlsx.writeBuffer(), of the calls on the sheet
  pub write_buffer : List (Call numbers) → Exec S Bytes

abbrev digit_36 : ℕ → ℕ
digit_36 d = if ltb d 10 then b'0' + d else b'A' + (d - 10)

-- The digits of a number below the fuel.
base_36 : ℕ → ℕ → Text
base_36 zero n = []
base_36 (suc f) n =
    let rest = base_36 f (n / 36) in
    if ltb n 36 then digit_36 n ∷ [] else rest ++ (digit_36 (n % 36) ∷ [])

-- `COT-${time.toString(36).toUpperCase()}`
unfoldable pub folio : ℕ → Text
unfolding base_36
folio time = codes "COT-" ++ base_36 (suc time) time

module _ {S : Type 0} (mailer : Mailer S) where
  from : Text
  from = codes "\"" ++ (sender_name ++ (codes "\" <" ++ (mailer.mail_user ++ codes ">")))

  contact_message : ContactMailDto → Message
  unfolding from
  contact_message dto = record {
    from = from;
    to = mailer.mail_to;
    reply_to = dto.correo;
    subject = codes "Nuevo mensaje de contacto — " ++ (dto.nombre ++ (codes " " ++ dto.apellido));
    html = some (build_contact_html dto);
    text = none;
    attachments = [];
  }

  unfoldable pub send_contact : ContactMailDto → Exec S (Unit {0})
  unfolding contact_message
  send_contact dto = catch (mailer.send_mail (contact_message dto)) (λ e. throw contact_failed)

  -- The mail with the number of the quotation and the workbook.
  cart_message : CartMailDto mailer.numbers → Text → Bytes → Message
  unfolding from
  cart_message dto number workbook = record {
    from = from;
    to = mailer.mail_to;
    reply_to = dto.correo;
    subject =
        codes "Nueva solicitud de cotización — " ++ (dto.nombre ++ (codes " " ++ dto.apellido));
    html = none;
    text = some (
        codes "Se recibió una nueva solicitud de cotización de "
        ++ (dto.nombre
            ++ (codes " "
                ++ (dto.apellido
                    ++ (codes " ("
                        ++ (dto.correo
                            ++ (codes ", "
                                ++ (dto.ubicacion
                                    ++ codes
                                        "). El detalle se encuentra en el archivo adjunto."))))))));
    attachments =
        record {
          filename = number ++ codes ".xlsx";
          content = workbook;
          content_type = codes "application/vnd.openxmlformats-officedocument.spreadsheetml.sheet";
        }
        ∷ [];
  }

  send_cart_mail : CartMailDto mailer.numbers → Exec S (Unit {0})
  unfolding cart_message
  send_cart_mail dto = do
    time ← mailer.now
    today ← mailer.now
    workbook ←
        mailer.write_buffer
          (build_cart_workbook mailer.numbers dto (folio time) (mailer.locale_date today))
    mailer.send_mail (cart_message dto (folio time) workbook)

  unfoldable pub send_cart : CartMailDto mailer.numbers → Exec S (Unit {0})
  unfolding send_cart_mail
  send_cart dto = catch (send_cart_mail dto) (λ e. throw cart_failed)
