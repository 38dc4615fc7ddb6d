-- ===== src/Lib.antt =====
-- A model of the service's accounts, sessions and field encryption, with what is proved of it.
--
-- The service is a Nest application. A request passes the guards, reaches a controller, and the
-- controller calls services that Nest injects into each other: AuthService uses UsersService,
-- PasswordService and SessionsService; UsersService uses EncryptionService; all of them use the
-- generated Prisma client on PostgreSQL.
--
-- - Prelude, Text, Exec: Boolean tests, lists, strings as lists of UTF-16 code units, and methods
--   that change state and may throw; what was written before a throw stays written.
-- - Node: what the program takes from Node.js (clock, randomness, AES-GCM, HMAC, Argon2, encodings),
--   as a record of parameters with its documented behaviour; Node/Sample is a concrete one.
-- - Prisma: the rows of prisma/schema.prisma and the client as an interface; Prisma/Laws has its
--   documented behaviour, and Prisma/Memory a database in memory that meets it. Each update of a user
--   sets `updated_at` to a date of which nothing is known.
-- - World, App: the state that the services share (the database, the readings of the clock and of the
--   generators, the warnings, the dummy hash) and what Nest injects.
-- - Encryption: src/common/crypto/encryption.service.ts.
-- - Users: src/users/users.service.ts.
-- - Password: src/auth/password.service.ts.
-- - Sessions: src/auth/sessions.service.ts.
-- - Sessions/Race: calls of `rotate` that run at a time, each from one call of the database to the next.
-- - Auth: src/auth/auth.service.ts with src/auth/auth.types.ts and the DTOs of src/auth/dto.
-- - Guards: src/auth/jwt-auth.guard.ts and src/auth/roles.guard.ts.
-- - Profile: src/auth/profile.controller.ts.
-- - Routes: the handlers of src/auth/auth.controller.ts and of the profile behind the guard.
-- - RateLimit: src/common/rate-limit/rate-limit.policies.ts and
--   src/common/rate-limit/app-throttler.guard.ts.
-- - Logging: src/common/interceptors/logging.interceptor.ts.
-- - Env: src/config/env.ts, with the checks of single variables in Env/Fields.
-- - Wiring: src/auth/auth.module.ts, src/app.module.ts and the constructors that read the environment.
-- - Mail: src/mail/mail.service.ts; Mail/Html is the page of a contact mail, Mail/Workbook the sheet of
--   a cart, as the list of the calls of Mail/Sheet that the source makes on it; Mail/Runs has the runs of
--   both operations on a transport that may fail.
-- - Catalog: src/products and src/category; Catalog/Routes is the controllers behind the guards. The
--   numbers of a request and the prices of the rows are two types, and the client goes from one to the
--   other.
-- - Reencrypt: src/scripts/reencrypt.ts. SeedAdmin: src/scripts/seed-admin.ts.
-- - ParseId: src/common/pipes/parse-id.pipe.ts.
-- - EscapeHtml: src/common/utils/escape-html.ts.
-- - Sample: an application with two users for the witnesses, which stand in the modules Tests.
--
-- A method of a class is a function of the same name in snake_case; an await is a bind, a throw an
-- err with the state beside it. A call of the client is atomic and is one step of the state. A date is
-- its milliseconds since 1970, a UUID its 128-bit number. Each `new Date()` or `Date.now()` reads the
-- clock once, in the order of the source, and no law says that the clock advances. Every function
-- here is structural on a list or has no loop, so no fuel is chosen, except for the digits of a
-- number, whose fuel is the number plus one, and for the pages of Reencrypt, where a bound on the ids
-- plus one is enough, as each page moves the cursor on.
--
-- Not modelled: the modules of Nest and the start of the server, the validation of DTOs by
-- class-validator, the transport of the mails and the writer of workbooks, the checks that zod itself
-- makes, and the counting of requests by @nestjs/throttler.
pub mod App
pub mod Auth
pub mod Catalog
pub mod Encryption
pub mod Env
pub mod EscapeHtml
pub mod Exec
pub mod Guards
pub mod Logging
pub mod Mail
pub mod Node
pub mod ParseId
pub mod Password
pub mod Prelude
pub mod Prisma
pub mod Profile
pub mod RateLimit
pub mod Reencrypt
pub mod Routes
pub mod Sample
pub mod SeedAdmin
pub mod Sessions
pub mod Text
pub mod Users
pub mod Wiring
pub mod World
