-- ===== src/World.antt =====
-- The state that the services share: the database, how far the clock and the random generators
-- have been read, and the warnings of the loggers.
use baja_valle_service.Prelude.{ℕ, ◌+◌, Option, none, some, List, ◌∷◌}
use baja_valle_service.Text.{Text}
use baja_valle_service.Node.{Node, Bytes}
use baja_valle_service.Exec.{Failure, ok, err, Exec}

-- The calls of `logger.warn`, by what they report.
pub data Warning : Type 0 where
  locked_login : ℕ → Warning
  account_locked : ℕ → Warning
  failed_login : ℕ → ℕ → Warning
  token_reuse : ℕ → ℕ → Warning

pub record World (Db : Type 0) : Type 0 where
  pub db : Db
  pub ticks : ℕ
  pub draws : ℕ
  pub log : List Warning
  -- the field `dummyHash` of PasswordService
  pub dummy_hash : Option Text

module _ {Db : Type 0} where
  -- new Date(), Date.now()
  abbrev pub now : Node → Exec (World Db) ℕ
  now node w = (ok (node.clock w.ticks), record w { ticks = w.ticks + 1 })

  abbrev pub random_bytes : Node → ℕ → Exec (World Db) Bytes
  random_bytes node size w = (ok (node.random_bytes w.draws size), record w { draws = w.draws + 1 })

  abbrev pub random_uuid : Node → Exec (World Db) ℕ
  random_uuid node w = (ok (node.random_uuid w.draws), record w { draws = w.draws + 1 })

  abbrev pub warn : Warning → Exec (World Db) (Unit {0})
  warn m w = (ok tt, record w { log = m ∷ w.log })

  -- A call of the client that reads, that may fail, and that counts.
  abbrev pub query : {A : Type 0} → (Db → A) → Exec (World Db) A
  query f w = (ok (f w.db), w)

  abbrev pub call : {A : Type 0} → Exec Db A → Exec (World Db) A
  call m w = let (r, db') = m w.db in (r, record w { db = db' })

  abbrev pub call_many : {A : Type 0} → (Db → A × Db) → Exec (World Db) A
  call_many m w = let (a, db') = m w.db in (ok a, record w { db = db' })

  abbrev pub or_throw : {A : Type 0} → Option A → Failure → Exec (World Db) A
  or_throw none e w = (err e, w)
  or_throw (some a) e w = (ok a, w)
