-- ===== src/Store/Session.antt =====
-- Statements of a session, and `session_scope` of persistence/engine.py.
-- Before a statement, what other sessions have committed is applied to the database. After its
-- first write a session holds the locks and unique keys that it needs, so others are then placed
-- before that write or behind the end of the session.
use agentic_analyst.Prelude.{ℕ, suc, Option, none, some, List, ◌∷◌, Text}
use agentic_analyst.Domain.Values.{Uuid, Datetime}
use agentic_analyst.Domain.Errors.{Error, Result, ok, err}
use agentic_analyst.Store.Tables.{Db}

-- What the process does outside the database, as far as the theorems speak of it.
pub data Event : Type 0 where
  graph_invoked : Uuid → Event
  url_validated : Text → Event
  primary_extracted fallback_extracted : Text → Event
  http_requested : Text → Event

pub record World : Type 0 where
  pub db : Db
  -- the database before the first write of the open session
  pub snapshot : Option Db
  -- how many times the process has met its environment
  pub tick : ℕ
  -- the latest event first
  pub log : List Event

-- The rest of the world, by the count of the meetings: what other sessions commit, `datetime.now`
-- and `uuid4`.
pub record Env : Type 0 where
  pub others : ℕ → Db → Db
  pub clock : ℕ → Datetime
  pub uuid : ℕ → Uuid

abbrev pub M {ℓ} : Type ℓ → Type ℓ
M A = World → Result A × World

abbrev pub pure {ℓ} : {A : Type ℓ} → A → M A
pure a w = (ok a, w)

abbrev pub raise {ℓ} : {A : Type ℓ} → Error → M A
raise x w = (err x, w)

abbrev pub and_then {ℓ κ} : {A : Type ℓ} {B : Type κ} → Result A → (A → M B) → M B
and_then (ok a) f w = f a w
and_then (err x) f w = (err x, w)

infixl 5 ◌>>=◌ ◌>>◌
abbrev pub ◌>>=◌ {ℓ κ} : {A : Type ℓ} {B : Type κ} → M A → (A → M B) → M B
◌>>=◌ m f w = let (r, w') = m w in and_then r f w'

abbrev pub ◌>>◌ {ℓ κ} : {A : Type ℓ} {B : Type κ} → M A → M B → M B
m >> k = m >>= λ _. k

-- `try: body` with `except Exception as error: handler(error)`
abbrev pub handle {ℓ} : {A : Type ℓ} → Result A → (Error → M A) → M A
handle (ok a) handler w = (ok a, w)
handle (err x) handler w = handler x w

abbrev pub try_except {ℓ} : {A : Type ℓ} → M A → (Error → M A) → M A
try_except body handler w = let (r, w') = body w in handle r handler w'

abbrev pub emit : Event → M (Unit {0})
emit event w = (ok tt, record w { log = event ∷ w.log })

-- An answer of the outside world, by the count of the meetings.
unfoldable pub ask {ℓ} : {A : Type ℓ} → (ℕ → Result A) → M A
ask answer w = (answer w.tick, record w { tick = suc w.tick })

-- The value of a computation without effects, or its exception.
abbrev pub lift {ℓ} : {A : Type ℓ} → Result A → M A
lift r w = (r, w)

abbrev pub base_of : Option Db → Db → Db
base_of none d = d
base_of (some s) d = s

module _ (e : Env) where
  abbrev pub others_commit : Option Db → ℕ → Db → Db
  others_commit none n d = e.others n d
  others_commit (some s) n d = d

  -- The world as the next statement meets it.
  unfoldable pub observe : World → World
  observe w = record w { db = others_commit w.snapshot w.tick w.db; tick = suc w.tick }

  -- A statement that reads.
  unfoldable pub query {ℓ} : {A : Type ℓ} → (Db → Result A) → M A
  unfolding observe
  query f w = let w' = observe w in (f w'.db, w')

  abbrev pub written {ℓ} : {A : Type ℓ} → Result (A × Db) → World → Result A × World
  written (ok (a, d)) w = (ok a, record w { db = d; snapshot = some (base_of w.snapshot w.db) })
  written (err x) w = (err x, w)

  -- A statement that writes, or is refused and writes nothing.
  unfoldable pub execute {ℓ} : {A : Type ℓ} → (Db → Result (A × Db)) → M A
  unfolding observe
  execute f w = let w' = observe w in written (f w'.db) w'

  -- `datetime.now(UTC)`
  unfoldable pub now : M Datetime
  now w = (ok (e.clock w.tick), record w { tick = suc w.tick })

  -- `uuid4()`
  unfoldable pub uuid4 : M Uuid
  uuid4 w = (ok (e.uuid w.tick), record w { tick = suc w.tick })

-- The end of `session_scope`: commit, or roll back and raise again.
abbrev pub close_session {ℓ} : {A : Type ℓ} → Result A × World → Result A × World
close_session (ok a, w) = (ok a, record w { snapshot = none })
close_session (err x, w) = (err x, record w { db = base_of w.snapshot w.db; snapshot = none })

unfoldable pub session_scope {ℓ} : {A : Type ℓ} → M A → M A
session_scope body w = close_session (body w)
