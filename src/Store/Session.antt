-- ===== src/Store/Session.antt =====
-- Connections, transactions and exceptions, as nodejs/Game.js meets them. Every call of the server
-- may fail; which calls do, and what its clock shows, is not the program's to say.
use isucon7_final.Prelude.{true, false, ℕ, ◌+◌, Bool, Option, none, some, if◌then◌else◌}
use isucon7_final.Store.Tables.{Db}

pub data Error : Type 0 where
  server_failure duplicate_key type_error : Error
  room_time_is_future req_time_is_past already_bought not_enough : Error

pub data Result (A : Type 0) : Type 0 where
  ok : A → Result A
  err : Error → Result A

-- The server: which of its calls fail, and the time of each, in milliseconds.
pub record Server : Type 0 where
  pub fails : ℕ → Bool
  pub clock : ℕ → ℕ

-- `working` is what the open transaction sees and has changed; the counters are of all calls of the
-- server and of the connections that were taken from the pool and given back. `is_open` tells whether
-- the transaction of the connection in hand has not ended, and `given_open` counts the connections
-- given back in that state: on one of those MySQL would commit what is left when the next transaction
-- begins, so here each transaction begins on what is committed.
pub record World : Type 0 where
  pub committed : Db
  pub working : Db
  pub calls : ℕ
  pub taken : ℕ
  pub released : ℕ
  pub is_open : Bool
  pub given_open : ℕ

abbrev pub M : Type 0 → Type 0
M A = World → Result A × World

module _ {A : Type 0} where
  abbrev pub pure : A → M A
  pure a w = (ok a, w)

  abbrev pub throw : Error → M A
  throw e w = (err e, w)

  -- `const [[row]] = …`, which fails on no rows.
  abbrev pub first_row : Option A → M A
  first_row none = throw type_error
  first_row (some a) = pure a

  abbrev pub or_throw : Option A → Error → M A
  or_throw none e = throw e
  or_throw (some a) e = pure a

infixl 5 ◌>>=◌ ◌>>◌
unfoldable pub ◌>>=◌ : {A C : Type 0} → M A → (A → M C) → M C
◌>>=◌ m f w = let (r, w') = m w in elim r [ ok a ↦ f a w' | err e ↦ (err e, w') ]

abbrev pub ◌>>◌ : {A C : Type 0} → M A → M C → M C
m >> k = m >>= λ _. k

abbrev pub throw_if : Bool → Error → M (Unit {0})
throw_if test e w = (if test then err e else ok tt, w)

module _ (server : Server) where
  -- One call of the server that does not fail by itself.
  unfoldable pub call : {A : Type 0} → (ℕ → World → A × World) → M A
  call f w =
      let (a, w') = f (server.clock w.calls) (record w { calls = w.calls + 1 }) in
      if server.fails w.calls
      then (err server_failure, record w { calls = w.calls + 1 })
      else (ok a, w')

  -- A statement that reads.
  abbrev pub query : {A : Type 0} → (Db → A) → M A
  query f = call (λ now w. (f w.working, w))

  -- A statement that writes.
  abbrev pub execute : (Db → Db) → M (Unit {0})
  execute f = call (λ now w. (tt, record w { working = f w.working }))

  -- `SELECT floor(unix_timestamp(current_timestamp(3))*1000)`
  abbrev pub read_clock : M ℕ
  read_clock = call (λ now w. (now, w))

  abbrev pub get_connection : M (Unit {0})
  get_connection = call (λ now w. (tt, record w { taken = w.taken + 1; is_open = false }))

  abbrev pub begin_transaction : M (Unit {0})
  begin_transaction = call (λ now w. (tt, record w { working = w.committed; is_open = true }))

  abbrev pub commit : M (Unit {0})
  commit = call (λ now w. (tt, record w { committed = w.working; is_open = false }))

  abbrev pub rollback : M (Unit {0})
  rollback = call (λ now w. (tt, record w { working = w.committed; is_open = false }))

abbrev pub release : M (Unit {0})
release w = (
  ok tt,
  record w {
    released = w.released + 1;
    given_open = if w.is_open then w.given_open + 1 else w.given_open;
  },
)

-- `try { … } catch (e) { … }`
abbrev pub handle : {A : Type 0} → M A → (Error → M A) → M A
handle m f w = let (r, w') = m w in elim r [ ok a ↦ (ok a, w') | err e ↦ f e w' ]
