-- ===== src/Users/Field.antt =====
-- FIELD of src/users/users.service.ts: the contexts that the columns are encrypted for.
use baja_valle_service.Text.{Text, codes}

abbrev pub email : Text
email = codes "users.email"

abbrev pub first_name : Text
first_name = codes "users.firstName"

abbrev pub last_name : Text
last_name = codes "users.lastName"
