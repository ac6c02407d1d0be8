-- ===== src/Lib.antt =====
-- Sund, a blind store-and-forward relay, as a model.
--
-- The relay keeps accounts, devices, invitations, queues and opaque messages in SQLite
-- (internal/store) and serves them over a signed HTTP API (internal/server). A handler of the server
-- authenticates a request, calls methods of the store, and hands wake-ups to a pinger. The store
-- knows nothing of the server; what they share is the database.
--
-- The Go client (client) builds and signs the requests that the server authenticates, over TLS whose
-- identity comes from internal/tlsid; main.go starts the server and gives the operator commands on
-- the database. The model of the client meets that of the server where a signed request arrives.
--
-- The files and the code:
--   Prelude      numbers, texts, bytes and lists that the other files share
--   Sql          the SQL statements that the store sends, on tables that are lists of rows: SELECT,
--                UPDATE, DELETE, COUNT, SUM, ORDER BY, with their laws
--   Sigauth      internal/sigauth/sigauth.go: SigningString
--   Store        internal/store. Tables has the rows of the schema. Accounts, Invitations, Devices,
--                Roles, Queues, Messages, Quotas, Statements and Bundles have a function for each
--                method of store.go, queue.go, quota.go and bundle.go, under the method's name
--                (RegisterDevice is register_device). Commands has the methods that write as data,
--                and a history of the database as a list of them; Schema has the catalog and the
--                migrations of store.go, Open its data source name; the other files are proofs
--   Server       internal/server. Types has requests, responses, the server's state and the handler
--                monad; Nonces and Auth are auth.go; Transport, Devices, Statements, Bundles and
--                Push are the files of those names, with a function for each handler (handleSend is
--                handle_send); Routes is the table of routes of server.go and its purge loop; the
--                other files are proofs
--   Push         internal/push/push.go: the request of a ping
--   Tls          internal/tlsid/tlsid.go: Verify is verifyPinned, Files the PEM files, Load is Load with
--                the certificates that it makes; the other files are proofs
--   Client       client: Address is address.go, Conn is conn.go and errors.go, Device is device.go and
--                Queue is queue.go, with a function for each method; Signed is about the requests
--                that the server reads, and is proofs
--   Main         main.go: Admin has the operator's commands, Serve the choices of serve, cert and
--                health; Founding and Wakes are proofs
--   Tests        a small world, and the theorems at concrete inputs
--
-- How the state is modelled:
--   * A method of the store is a function from the database to a result and the database after it.
--     A method that fails leaves the database as it was: the code rolls the transaction back.
--     Methods are atomic, so any interleaving of concurrent requests is a list of commands. Two
--     methods of a handler are not atomic together; a theorem on lists of commands covers every
--     interleaving of them, and one on whole requests covers requests served one after the other.
--     DrainMessages and CreateInvitation send two statements outside a transaction; each is
--     modelled as one step all the same.
--   * A time is a count of nanoseconds since the year 0. A time column is RFC3339 text in UTC to
--     the second; it is modelled as the count of whole seconds, whose order is that of the texts
--     for the years 0 to 9999.
--   * What the code draws or reads from outside is an argument: random bytes, and the instants that
--     the clock shows: for a handler one when the timestamp is checked, one when the nonce is looked
--     up, and one that its methods of the store share, where the code reads the clock in each.
--   * ed25519, SHA-256, base64, the parsing of times and JSON are fields of the record Library. No
--     theorem on the server alone assumes anything of them; one on the client and the server takes
--     the two sides to fit together.
--   * crypto/x509, PEM, keys and the calls of the system are fields of X509 and Os, net/url and
--     strconv of UrlLibrary, and what the client and the commands call of ClientLibrary and
--     Environment. A file is written in full, cut off after some bytes or not at all; a file that
--     is there can be unreadable. The network of the client is any function of a request and a
--     state.
--   * A command line is given as its parsed flags; a command runs on a machine that has the databases
--     by path, the files, the pings that were tried and the lines that were printed.
--   * The body of a request is cut to the limit of the code's LimitReader, as the code cuts it.
--   * Loops over rows are structural recursion; there is no fuel.
--   * The conversion of the clamped time to live is an int64 with its wrap-around. Sums of payload
--     sizes and sequence numbers are unbounded numbers: an overflow of a 64-bit total is not
--     modelled.
--
-- Not modelled: failures of the SQL driver, which every method passes on after a rollback; the
-- values that a migration fills in; the time limits of pings and of the client; the TLS handshake;
-- the network loop and the shutdown of the server; the logs that the handlers write; and the
-- integration tests.
pub mod Prelude
pub mod Sql
pub mod Store
pub mod Sigauth
pub mod Server
pub mod Push
pub mod Tls
pub mod Client
pub mod Main
pub mod Tests
