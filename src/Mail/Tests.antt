-- ===== src/Mail/Tests.antt =====
-- Runs of the theorems on a cart of one item, with natural numbers and a transport that answers.
use baja_valle_service.Prelude.{ℕ, ◌+◌, ◌*◌, ◌≡◌, refl, [], ◌∷◌, length}
use Prim.Native.Nat.{max}
use baja_valle_service.Text.{codes}
use baja_valle_service.Exec.{pure}
use baja_valle_service.Mail.Html.{ContactMailDto, build_contact_html}
use baja_valle_service.Mail.Workbook.{fill_rows, build_cart_workbook}
use baja_valle_service.Mail.Sheet.{Numbers, CartItemDto, CartMailDto, min_item_rows}
use baja_valle_service.Mail.Workbook.Frame.{IsFramed, build_cart_workbook-IsFramed}
use baja_valle_service.Mail.Workbook.Items.{IsItemAt, build_cart_workbook-IsItemAt}
use baja_valle_service.Mail.Workbook.Totals.{IsTotalAt, cart_total, build_cart_workbook-IsTotalAt}
use baja_valle_service.Mail.{Mailer, send_contact, send_cart, folio}
use baja_valle_service.Mail.Laws.{IsPage, build_contact_html-IsPage}
use baja_valle_service.Mail.Runs.{
  IsContactRun, IsCartRun, send_contact-IsContactRun, send_cart-IsCartRun,
}

abbrev naturals : Numbers
naturals = record { Num = ℕ; nought = 0; add = λ m n. m + n; mul = λ m n. m * n }

abbrev mailer : Mailer (Unit {0})
mailer = record {
  mail_user = codes "app@example.com";
  mail_to = codes "sales@example.com";
  send_mail = λ message. pure tt;
  now = pure 1700000000;
  locale_date = λ time. codes "26 de noviembre de 2026";
  numbers = naturals;
  write_buffer = λ calls. pure [];
}

abbrev contact : ContactMailDto
contact = record {
  nombre = codes "Ana";
  apellido = codes "<b>";
  correo = codes "ana@example.com";
  mensaje = codes "one\ntwo";
}

abbrev grapes : CartItemDto naturals
grapes = record { nombre = codes "Uva"; cantidad = 3; precio = 20 }

abbrev wire : CartItemDto naturals
wire = record { nombre = codes "Alambre"; cantidad = 2; precio = 50 }

abbrev cart : CartMailDto naturals
cart = record {
  nombre = codes "Ana";
  apellido = codes "Ruiz";
  correo = codes "ana@example.com";
  ubicacion = codes "Ensenada";
  items = grapes ∷ wire ∷ [];
}

cart_sum : cart_total naturals cart.items ≡ 160
unfolding cart_total
cart_sum = refl

folio_run : folio 1700000000 ≡ codes "COT-S44WE8"
unfolding folio
folio_run = refl

build_contact_html-IsPage_example : IsPage contact (build_contact_html contact)
build_contact_html-IsPage_example = build_contact_html-IsPage contact

build_cart_workbook-IsFramed_example :
    IsFramed
      (fill_rows naturals cart)
      (build_cart_workbook naturals cart (codes "COT-1") (codes "hoy"))
build_cart_workbook-IsFramed_example =
    build_cart_workbook-IsFramed cart (codes "COT-1") (codes "hoy")

build_cart_workbook-IsItemAt_example :
    IsItemAt (build_cart_workbook naturals cart (codes "COT-1") (codes "hoy")) 18 wire
build_cart_workbook-IsItemAt_example =
    build_cart_workbook-IsItemAt cart (codes "COT-1") (codes "hoy") (grapes ∷ []) [] wire refl

build_cart_workbook-IsTotalAt_example :
    IsTotalAt
      (build_cart_workbook naturals cart (codes "COT-1") (codes "hoy"))
      (18 + max (length cart.items) min_item_rows)
      (cart_total naturals cart.items)
build_cart_workbook-IsTotalAt_example =
    build_cart_workbook-IsTotalAt cart (codes "COT-1") (codes "hoy")

send_contact-IsContactRun_example : IsContactRun mailer contact tt (send_contact mailer contact tt)
send_contact-IsContactRun_example = send_contact-IsContactRun mailer contact tt

send_cart-IsCartRun_example : IsCartRun mailer cart tt (send_cart mailer cart tt)
send_cart-IsCartRun_example = send_cart-IsCartRun mailer cart tt
