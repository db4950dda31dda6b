-- ===== src/Lib.antt =====
-- matrix-ircd: an IRC server that shows the rooms of a Matrix account as IRC channels.
--
-- A client speaks IRC to the program, which speaks HTTP to a Matrix server. Per client there is a
-- connection (src/irc/transport.rs) that cuts the bytes of the stream into lines and parses these
-- (src/irc/protocol.rs); a login that folds its first commands (src/irc/mod.rs, src/stream_fold.rs);
-- a user connection (src/irc/mod.rs) that answers what it can from a model of the server
-- (src/irc/models.rs) and hands over other commands; a Matrix client (src/matrix/mod.rs,
-- src/matrix/sync.rs) that keeps the rooms of the account (src/matrix/models.rs) up to date from
-- sync responses (src/matrix/protocol.rs), over an HTTP client (src/http.rs); and the bridge
-- (src/bridge/mod.rs), which passes commands one way and events the other. Its mapping store gives
-- every room a channel and every Matrix user a nick, and enters both in the model of the server.
--
-- The files:
--   Prelude             names of the library that are passed on, tests on numbers, list lemmas, and
--                       `Outcome`, the result of code that may panic
--   Text                strings as lists of code points, with what the program uses of `str`
--                       (`split`, `trim`, `strip_prefix`, UTF-8, decimal numbers)
--   BTreeMap            maps from strings as sorted association lists, with their laws and with
--                       pairs of maps that are inverse to each other
--   Irc/Protocol        src/irc/protocol.rs: `IrcCommand` (from_irc_line as `from_args`), `Command`
--                       (both conversions and to_str), `Numeric`, and the grammar with
--                       parse_irc_line, one function for each rule
--   Irc/Socket          the stream below a connection
--   Irc/Transport       src/irc/transport.rs: `IrcServerConnection`, each method under its name
--   Irc/Models          src/irc/models.rs: `ServerModel`, each method under its name
--   StreamFold          src/stream_fold.rs: `StreamFold` over any stream
--   Irc/Login           src/irc/mod.rs: await_login, with poll_login for a poll of its future
--   Irc/User            src/irc/mod.rs: `IrcUserConnection`, each other method under its name
--   Http/Parser         src/http.rs: `HttpParser`; a round of poll_for_response up to the read is
--                       `turn`
--   Http/Client         src/http.rs: `HttpClient` and what it runs; poll_handler is the poll of
--                       `HttpClientHandler`, poll_reconnecting that of `ReconnectingStream`,
--                       poll_response that of `HttpResponseFuture`
--   Matrix/Protocol     src/matrix/protocol.rs: the types of a sync response
--   Matrix/Models       src/matrix/models.rs: `Room`, each method under its name; the loops of
--                       from_sync and update_from_sync are functions of their own
--   Matrix/Services     what the Matrix client calls of other libraries
--   Matrix/SyncClient   src/matrix/sync.rs: `MatrixSyncClient`
--   Matrix/Client       src/matrix/mod.rs: `MatrixClient`; a request and what follows its response
--                       are two functions (login and login_response, and so on)
--   Bridge/Action       src/bridge/mod.rs: handle_privmsg_action
--   Bridge/UniqueName   src/bridge/mod.rs: the loop that makes a channel or a nick unique
--   Bridge/MappingStore src/bridge/mod.rs: `MappingStore`, each method under its name, on the pair
--                       of the store and the IRC side that it changes
--   Bridge/Events       src/bridge/mod.rs: `Bridge`, each method under its name; joined_room is what
--                       follows the response to a join
--   Bridge/Polls        src/bridge/mod.rs: poll_irc and poll_matrix
--   Tests               the tests of src/irc/protocol.rs, and the theorems at concrete inputs
--
-- The state of a part is a record with the fields of the struct, and an operation takes it and
-- gives it back. A panic (`panic!`, `expect`, an index out of range) is a value of `Outcome`.
--
-- The environment. A stream is the list of what its calls of read, write and flush are going to
-- give, errors and delays included, with the bytes it has taken so far; where a list ends, the call
-- blocks. A write takes a prefix of the bytes offered, and a read fills at most the buffer it is
-- given. A oneshot of the HTTP client is a number, and what is sent on it is logged in order; what the
-- sync client's polls of a response give is a list, as are the results of connecting. httparse is the
-- record `Httparse`, whose documented behaviour is the record `Laws`. The url, serde_json, rand, regex
-- and percent-encoding crates are the record `Services`. A task that the bridge spawns is the oneshot
-- it waits for, and the executor is the order in which the steps are taken. JSON values come from
-- serde_json and are a parameter, the record `Json` of the functions that the rooms call. The
-- mutex around the write buffer has no other holder and is left out, the task registered for
-- wake-ups is a flag, and logging is left out.
--
-- Fuel. The loops that are not over a list take a number of rounds: the parameters of a line as
-- many as it has characters, the lines of a buffer as many as it has bytes, the chunks of names as
-- many as there are names, the loop of poll_read one more than the bytes and calls that the stream
-- is still to give, the search for a free name one more than the names in use. The loop of
-- poll in src/irc/mod.rs takes one round more than the bytes and calls to come, since each round
-- uses up a line; so do the login and poll_irc. poll_for_response takes one more than the bytes
-- buffered and the bytes and calls to come, poll_inner one more than the requests, poll_matrix one
-- more than the polls of the list.
--
-- Not modelled: start-up, sockets, TLS and DNS, and logging (src/main.rs, src/macros.rs); the
-- executor of tasked-futures; and what libraries do.
pub mod Prelude
pub mod Text
pub mod BTreeMap
pub mod StreamFold
pub mod Irc
pub mod Http
pub mod Matrix
pub mod Bridge
pub mod Tests
