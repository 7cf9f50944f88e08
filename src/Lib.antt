-- ===== src/Lib.antt =====
-- Renom: a panel that runs game servers on its own machine. This library models the decisions of
-- the panel's server (apps/panel/src/server) and of packages/contracts, as functions on explicit
-- state.
--
-- A request comes with a token. Auth.Service (modules/auth/jwt.ts, service.ts) and Auth.ApiKeys
-- (modules/auth/api-keys.ts) make a principal of it, against the row of the user as it is then;
-- Auth.Service.Login, in the same source file, hands such a token out. Access
-- (packages/contracts/src/index.ts, permissions and authorization under apps/panel/src/server)
-- resolves the grants of the principal on a server and decides whether the request goes on; Errors
-- (shared/errors.ts) holds what is thrown and the HTTP status of it. Auth.RateLimit
-- (modules/auth/ratelimit.ts) counts requests in fixed windows, over the insertion-ordered map of
-- JsMap.
--
-- The routes then act on the repositories: Servers (modules/servers/repo.ts) with its ports,
-- creation, variables and removal, Users (modules/users/repo.ts) with the first owner and
-- deletion, and Files.Properties (modules/files/properties.ts), which edits server.properties.
-- Schedules (modules/schedules/cron.ts, runner.ts) parses cron expressions, finds the next minute,
-- claims due schedules under a lock and runs their tasks; the engine, the backups and all that
-- others do meanwhile are the parameter of a Host in Schedules.Run.
--
-- Backups (modules/backups/service.ts) reserves the name of an archive, records it, keeps the
-- newest unlocked ones and restores one by a swap of directories; the files are maps from a path
-- to a content, and tar, SHA-256, the local time and path.resolve are fields of a record of Tools.
-- create waits for tar, so it is two functions, begin and complete, between which other calls may
-- come; restore waits three times, and a record Meanwhile says what others do to the vault in each
-- wait and which call of the file system throws, if one does. Runtime (modules/runtime/engine.ts)
-- runs the servers: Runtime.Slot is the slot of one server, whose methods and event handlers are
-- steps that may come in any order, and Runtime.Console the console of a running server: the lines
-- made of chunks, the bounded history and the text that is written to the process, and
-- Runtime.Launch fills the variables of a command in. A chunk of output is its bytes, and its
-- decoding, which is String() of a Buffer, is a parameter, as is what the names of
-- Object.prototype give where a variable is looked up. Tunnels (modules/tunnels/minekube.ts) makes
-- the names of tunnel endpoints, and Ulid (shared/ulid.ts) the identifiers of rows.
--
-- Database holds the tables as lists of rows in the order of insertion, with the columns of
-- infra/db/migrations that are read; Database.Table has the statements on a table and their laws,
-- Database.Change statements that violate a constraint and the transaction that is rolled back
-- then. Prelude passes on the names of the libraries and adds Boolean tests, lists and keys;
-- JsText models what the program uses of strings and Number(), with doubles, over UTF-16 code
-- units. Tests applies the theorems at concrete inputs and runs the model.
--
-- Names: an operation has the name of its method in snake case, in the module of its file. A
-- method that changes the database takes it and returns the one after. Times, identifiers and
-- random bits are arguments, since the source reads them from the host. What stands outside the
-- repository is an argument too: JSON.parse, bcrypt, SHA-256, jsonwebtoken, and String() of a
-- number in the servers.
--
-- Bounds and fuel: next_run scans with one round more than there are minutes up to its horizon of
-- five years, and is shown to find each match up to there; add_range has one round for each number
-- of the range; the digits of a number have one round for each unit of its value; the rounding of
-- a number to a double halves at most 1100 times, more than the 971 after which it is Infinity,
-- and doubles at most 1074 times, the last bit of a double; claim_free_port has one round for each
-- port of its range, reserve one for each archive and one more, which is shown to be enough, and
-- creation is tried five times, as in the source. The loop that makes the name of an endpoint has
-- as many rounds as it is given, and ends in the first round whose name is short enough
-- (Tunnels.Names.generate_ends); a name is claimed in eight attempts, as in the source. All other
-- loops follow a list.
--
-- Not modelled: String() prints a whole number in full here, which it does up to 2 ^ 53; each
-- number setting has a bound far below that. SQLite runs one statement at a time on one
-- connection, so that transactions do not interleave. Messages of errors are left out. Child
-- processes, files and archives, downloads, HTTP, WebSocket and the browser code are I/O around
-- what is modelled; the sampler of the engine is left out.
pub mod Prelude
pub mod JsText
pub mod JsMap
pub mod Json
pub mod Errors
pub mod Database
pub mod Access
pub mod Users
pub mod Servers
pub mod Runtime
pub mod Backups
pub mod Tunnels
pub mod Ulid
pub mod Schedules
pub mod Auth
pub mod Files
mod Tests
