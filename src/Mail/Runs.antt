-- ===== src/Mail/Runs.antt =====
-- The runs of `sendContact` and `sendCart` of src/mail/mail.service.ts.
use baja_valle_service.Prelude.{ℕ, ◌≡◌, refl, some, [], ◌∷◌, ◌++◌}
use baja_valle_service.Text.{Text, codes}
use baja_valle_service.Node.{Bytes}
use baja_valle_service.Exec.{Result, ok, err, Failure, handle, throw, continue, Exec, ◌>>=◌}
use baja_valle_service.Mail.Html.{ContactMailDto, build_contact_html}
use baja_valle_service.Mail.Sheet.{CartMailDto}
use baja_valle_service.Mail.Workbook.{build_cart_workbook}
use baja_valle_service.Mail.{
  Message, folio, Mailer, contact_failed, cart_failed, contact_message, send_contact, cart_message,
  send_cart_mail, send_cart,
}

-- The mail of a contact request.
pub record IsContactMessage {S : Type 0} (mailer : Mailer S) (dto : ContactMailDto) (m : Message)
    : Type 0 where
  pub to : m.to ≡ mailer.mail_to
  pub reply_to : m.reply_to ≡ dto.correo
  pub html : m.html ≡ some (build_contact_html dto)

-- The mail of a cart: the sheet is attached.
pub record IsCartMessage {S : Type 0} (mailer : Mailer S) (dto : CartMailDto mailer.numbers)
    (name : Text) (sheet : Bytes) (m : Message) : Type 0 where
  pub to : m.to ≡ mailer.mail_to
  pub reply_to : m.reply_to ≡ dto.correo
  pub attached :
      (kind : Text) × (m.attachments
        ≡ record { filename = name ++ codes ".xlsx"; content = sheet; content_type = kind } ∷ [])

module _ {S : Type 0} (mailer : Mailer S) where
  -- The runs of a contact mail: the transport has taken it, or has failed.
  pub data IsContactRun (dto : ContactMailDto) (s : S) : Result (Unit {0}) × S → Type 0 where
    sent :
        (m : Message) (t : S)
        → IsContactMessage mailer dto m
        → mailer.send_mail m s ≡ (ok tt, t)
        → IsContactRun dto s (ok tt, t)
    failed :
        (m : Message) (t : S) (e : Failure)
        → IsContactMessage mailer dto m
        → mailer.send_mail m s ≡ (err e, t)
        → IsContactRun dto s (err contact_failed, t)

  -- The runs of a cart mail: two readings of the clock, the workbook of the cart with its number and
  -- date, and the transport, up to the first that fails.
  pub data IsCartRun (dto : CartMailDto mailer.numbers) (s : S)
      : Result (Unit {0}) × S → Type 0 where
    sent :
        (time today : ℕ) (sheet : Bytes) (m : Message) (a b c d : S)
        → mailer.now s ≡ (ok time, a)
        → mailer.now a ≡ (ok today, b)
        → mailer.write_buffer
            (build_cart_workbook mailer.numbers dto (folio time) (mailer.locale_date today))
            b
          ≡ (ok sheet, c)
        → IsCartMessage mailer dto (folio time) sheet m
        → mailer.send_mail m c ≡ (ok tt, d)
        → IsCartRun dto s (ok tt, d)
    no_time :
        (a : S) (e : Failure) → mailer.now s ≡ (err e, a) → IsCartRun dto s (err cart_failed, a)
    no_date :
        (time : ℕ) (a b : S) (e : Failure)
        → mailer.now s ≡ (ok time, a)
        → mailer.now a ≡ (err e, b)
        → IsCartRun dto s (err cart_failed, b)
    no_sheet :
        (time today : ℕ) (a b c : S) (e : Failure)
        → mailer.now s ≡ (ok time, a)
        → mailer.now a ≡ (ok today, b)
        → mailer.write_buffer
            (build_cart_workbook mailer.numbers dto (folio time) (mailer.locale_date today))
            b
          ≡ (err e, c)
        → IsCartRun dto s (err cart_failed, c)
    refused :
        (time today : ℕ) (sheet : Bytes) (m : Message) (a b c d : S) (e : Failure)
        → mailer.now s ≡ (ok time, a)
        → mailer.now a ≡ (ok today, b)
        → mailer.write_buffer
            (build_cart_workbook mailer.numbers dto (folio time) (mailer.locale_date today))
            b
          ≡ (ok sheet, c)
        → IsCartMessage mailer dto (folio time) sheet m
        → mailer.send_mail m c ≡ (err e, d)
        → IsCartRun dto s (err cart_failed, d)

  at_contact :
      (dto : ContactMailDto) (s : S) (p : Result (Unit {0}) × S)
      → mailer.send_mail (contact_message mailer dto) s ≡ p
      → IsContactRun dto s (handle p.0 (λ e. throw contact_failed) p.1)
  unfolding contact_message
  at_contact dto s (ok tt, t) e =
      IsContactRun.sent (contact_message mailer dto) t
        (record { to = refl; reply_to = refl; html = refl }) e
  at_contact dto s (err x, t) e =
      IsContactRun.failed (contact_message mailer dto) t x
        (record { to = refl; reply_to = refl; html = refl }) e

  -- Sending a contact mail hands one message to the transport, to the address of the shop with the page
  -- of the request, and returns exactly if the transport does; else its failure is the one of status
  -- 500, and what the transport has thrown does not get out.
  pub send_contact-IsContactRun :
      (dto : ContactMailDto) (s : S) → IsContactRun dto s (send_contact mailer dto s)
  unfolding send_contact
  send_contact-IsContactRun dto s =
      at_contact dto s (mailer.send_mail (contact_message mailer dto) s) refl

  abbrev caught : Result (Unit {0}) × S → Result (Unit {0}) × S
  caught p = handle p.0 (λ e. throw cart_failed) p.1

  module _ (dto : CartMailDto mailer.numbers) (s : S) where
    abbrev sheet_of : ℕ → ℕ → Exec S Bytes
    sheet_of time today =
        mailer.write_buffer
          (build_cart_workbook mailer.numbers dto (folio time) (mailer.locale_date today))

    cart_message-IsCartMessage :
        (name : Text) (sheet : Bytes)
        → IsCartMessage mailer dto name sheet (cart_message mailer dto name sheet)
    unfolding cart_message
    cart_message-IsCartMessage name sheet = record {
      to = refl;
      reply_to = refl;
      attached = (_, refl);
    }

    at_transport :
        (time today : ℕ) (sheet : Bytes) (a b c : S) (p : Result (Unit {0}) × S)
        → mailer.now s ≡ (ok time, a)
        → mailer.now a ≡ (ok today, b)
        → sheet_of time today b ≡ (ok sheet, c)
        → mailer.send_mail (cart_message mailer dto (folio time) sheet) c ≡ p
        → IsCartRun dto s (caught p)
    at_transport time today sheet a b c (ok tt, d) e f g h =
        IsCartRun.sent time today sheet _ a b c d e f g
          (cart_message-IsCartMessage (folio time) sheet) h
    at_transport time today sheet a b c (err x, d) e f g h =
        IsCartRun.refused time today sheet _ a b c d x e f g
          (cart_message-IsCartMessage (folio time) sheet) h

    at_sheet :
        (time today : ℕ) (a b : S) (p : Result Bytes × S)
        → mailer.now s ≡ (ok time, a)
        → mailer.now a ≡ (ok today, b)
        → sheet_of time today b ≡ p
        → IsCartRun dto s (
            caught (
              continue p.0
                (λ sheet. mailer.send_mail (cart_message mailer dto (folio time) sheet))
                p.1))
    at_sheet time today a b (ok sheet, c) e f g = at_transport time today sheet a b c _ e f g refl
    at_sheet time today a b (err x, c) e f g = IsCartRun.no_sheet time today a b c x e f g

    abbrev mail_from : ℕ → ℕ → Exec S (Unit {0})
    mail_from time today = sheet_of time today >>= λ sheet.
        mailer.send_mail (cart_message mailer dto (folio time) sheet)

    at_date :
        (time : ℕ) (a : S) (p : Result ℕ × S)
        → mailer.now s ≡ (ok time, a)
        → mailer.now a ≡ p
        → IsCartRun dto s (caught (continue p.0 (mail_from time) p.1))
    at_date time a (ok today, b) e f = at_sheet time today a b _ e f refl
    at_date time a (err x, b) e f = IsCartRun.no_date time a b x e f

    at_time :
        (p : Result ℕ × S)
        → mailer.now s ≡ p
        → IsCartRun dto s (caught (continue p.0 (λ time. mailer.now >>= mail_from time) p.1))
    at_time (ok time, a) e = at_date time a _ e refl
    at_time (err x, a) e = IsCartRun.no_time a x e

    -- Sending a cart mail reads the clock twice, writes the workbook of the cart with the number and the
    -- date that come of them, and hands one message with that workbook to the transport: it returns
    -- exactly if all of them do, else it fails with its failure of status 500 behind the first that
    -- fails.
    pub send_cart-IsCartRun : IsCartRun dto s (send_cart mailer dto s)
    unfolding send_cart send_cart_mail
    send_cart-IsCartRun = at_time (mailer.now s) refl
