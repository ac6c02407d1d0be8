-- ===== src/Server/Stored.antt =====
-- Handlers of internal/server together with the commands of the store that they amount to.
pub mod Steps
pub mod Queues
pub mod Devices
pub mod Records
use sund.Prelude.{
  ℕ, ◌≡◌, refl, sym, ap, ◌∙◌, subst, Bool, true, false, Option, none, some, List, [], ◌∷◌, ◌++◌,
  String, Bytes,
}
use sund.Store.Tables.{Db, Result, ok, err, Error}
use sund.Store.Commands.{Command, after, execute, run}
use sund.Server.Transport.{run_db}
use sund.Server.Types.{
  Library, Server, Outcome, next, reply, Handler, ◌>>=◌ as ◌and_then◌, Body, respond, write_error,
  give, gets, modify_db, require, or_reply, run_store, read_store,
}

module _ (sha256 : Bytes → Bytes) where
  run-append :
      (cs ds : List Command) (db : Db) → run sha256 (cs ++ ds) db ≡ run sha256 ds (run sha256 cs db)
  unfolding run
  run-append [] ds db = refl
  run-append (c ∷ cs) ds db = run-append cs ds (execute sha256 c db)

  -- Some commands lead from one database to the other.
  abbrev pub Reaches : Db → Db → Type 0
  Reaches db db' = (cs : List Command) × (db' ≡ run sha256 cs db)

  pub Reaches-refl : (db : Db) → Reaches db db
  unfolding run
  Reaches-refl db = ([], refl)

  pub Reaches-trans : (a b c : Db) → Reaches a b → Reaches b c → Reaches a c
  Reaches-trans a b c (cs, e) (ds, f) =
      (cs ++ ds, f ∙ ap (run sha256 ds) e ∙ sym (run-append cs ds a))

  pub by_command : (c : Command) (db : Db) → Reaches db (execute sha256 c db)
  unfolding run
  by_command c db = (c ∷ [], refl)

  -- Every state that the handler leaves is reached by commands.
  abbrev pub Stored : {A : Type 0} → Handler A → Type 0
  Stored h = (s : Server) → Reaches s.db (h s).1.db

-- A handler with the proof; the steps of such a handler are written as the handler's own are.
pub record Safe (sha256 : Bytes → Bytes) (A : Type 0) : Type 0 where
  pub handler : Handler A
  pub stored : Stored sha256 handler

module _ {sha256 : Bytes → Bytes} where
  infixl 5 ◌>>=◌ ◌>>◌
  abbrev pub ◌>>=◌ : {A B : Type 0} → Safe sha256 A → (A → Safe sha256 B) → Safe sha256 B
  m >>= f = record {
    handler = m.handler and_then λ a. (f a).handler;
    stored = λ s. go s (m.handler s) (m.stored s);
  }
    where
      go :
          (s : Server) (o : Outcome _ × Server)
          → Reaches sha256 s.db o.1.db
          → Reaches sha256 s.db (((λ _. o) and_then λ a. (f a).handler) s).1.db
      go s (next a, s') g = Reaches-trans sha256 _ _ _ g ((f a).stored s')
      go s (reply r, s') g = g

  abbrev pub ◌>>◌ : {B : Type 0} → Safe sha256 (Unit {0}) → Safe sha256 B → Safe sha256 B
  m >> k = m >>= λ _. k

  module _ {A : Type 0} where
    -- A handler that leaves the database alone.
    abbrev pub unchanged : (h : Handler A) → ((s : Server) → (h s).1.db ≡ s.db) → Safe sha256 A
    unchanged h e = record {
      handler = h;
      stored = λ s. subst (Reaches sha256 s.db) (sym (e s)) (Reaches-refl sha256 s.db);
    }

    abbrev pub responds : ℕ → Body → Safe sha256 A
    responds status body = record {
      handler = respond status body;
      stored = λ s. Reaches-refl sha256 s.db;
    }

    abbrev pub gives : A → Safe sha256 A
    gives a = record { handler = give a; stored = λ s. Reaches-refl sha256 s.db }

    abbrev pub reads : (Server → A) → Safe sha256 A
    reads f = record { handler = gets f; stored = λ s. Reaches-refl sha256 s.db }

    abbrev pub or_replies : Option A → ℕ → String → Safe sha256 A
    or_replies o status message = record { handler = or_reply o status message; stored = go o }
      where
        go : (o : Option A) → Stored sha256 (or_reply o status message)
        go none s = Reaches-refl sha256 s.db
        go (some a) s = Reaches-refl sha256 s.db

    abbrev pub reads_store : (Db → Result A) → (Error → ℕ × String) → Safe sha256 A
    reads_store m on_error = record { handler = read_store m on_error; stored = λ s. go s (m s.db) }
      where
        go : (s : Server) (r : Result A) → Reaches sha256 s.db (read_store (λ _. r) on_error s).1.db
        go s (ok a) = Reaches-refl sha256 s.db
        go s (err e) = Reaches-refl sha256 s.db

    -- A method that commits what some command commits.
    abbrev pub runs_store :
        (m : Db → Result (A × Db))
        → (Error → ℕ × String)
        → ((db : Db) → Reaches sha256 db (after db (m db)))
        → Safe sha256 A
    runs_store m on_error h = record {
      handler = run_store m on_error;
      stored = λ s. go s (m s.db) (h s.db);
    }
      where
        go :
            (s : Server) (r : Result (A × Db))
            → Reaches sha256 s.db (after s.db r)
            → Reaches sha256 s.db (run_store (λ _. r) on_error s).1.db
        go s (ok (a, db')) g = g
        go s (err e) g = Reaches-refl sha256 s.db

    abbrev pub runs_db :
        (f : Db → A × Db) → ((db : Db) → Reaches sha256 db (f db).1) → Safe sha256 A
    runs_db f h = record { handler = run_db f; stored = λ s. h s.db }

  abbrev pub requires : Bool → ℕ → String → Safe sha256 (Unit {0})
  requires b status message = record { handler = require b status message; stored = go b }
    where
      go : (b : Bool) → Stored sha256 (require b status message)
      go true s = Reaches-refl sha256 s.db
      go false s = Reaches-refl sha256 s.db

  abbrev pub modifies_db :
      (f : Db → Db) → ((db : Db) → Reaches sha256 db (f db)) → Safe sha256 (Unit {0})
  modifies_db f h = record { handler = modify_db f; stored = λ s. h s.db }
