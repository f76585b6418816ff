-- ===== src/Lib.antt =====
-- Verification of diff-mem: an agent's memory as a tree of nodes, each with a header and an event
-- stream that only grows, behind seven tools (create, append, update, lifecycle, list, search, show)
-- and a transaction call.
--
-- A call comes in as a tool name and decoded JSON parameters. Dispatch (internal/engine/engine.go)
-- extracts typed options (extract.go, which normalises paths by helpers.go) and calls a handler, which
-- validates the options (internal/validator), reads and writes nodes through the store interface
-- (internal/store), and keeps an in-memory index of the [[links]] in event bodies (links.go) for the
-- backlinks of show and the guard of delete. Exec runs up to 20 operations with a snapshot and a
-- rollback. An HTTP server (internal/api) and an MCP server (internal/mcp) pass requests to the engine,
-- and an agent with an interactive loop (internal/agent) and a command line (cmd/agent) is a client of
-- the HTTP server.
--
-- Which file models what:
--   Text             Go strings and what the program uses of package strings
--   Dict             Go maps, as association lists
--   Model            internal/model/model.go
--   Env              the clock, package uuid, the Unicode tables and encoding/json, as parameters
--   Validator        internal/validator/validator.go; Validator/Segments and Validator/Path are its theory
--   Paths            NormalizePath of internal/engine/helpers.go
--   Params           internal/engine/extract.go
--   Links            internal/engine/links.go but the gate; Links/Index and Links/Extract are its theory
--   Entity           internal/engine/entity.go
--   Store            internal/store: the interface (Store/Interface), the indices that all stores build
--                    (Store/Indexing), and MemoryStore of store.go (Store/Memory), FileStore of
--                    filestore.go (Store/File) and SQLiteStore of sqlitestore.go (Store/Sqlite)
--   Engine           the engine's state, New, responses, and the gate of links.go
--   Engine/Write     internal/engine/write.go
--   Engine/Lifecycle internal/engine/lifecycle.go
--   Engine/Read      internal/engine/read.go, with the entries of a listing in Read/Entries and the scores
--                    of a search in Read/Scoring
--   Engine/Dispatch  Dispatch of internal/engine/engine.go
--   Engine/Exec      Exec, snapshot and restore of internal/engine/engine.go
--   Api              internal/api/server.go
--   Mcp              internal/mcp/server.go, and internal/mcp/schema.go (Mcp/Schema)
--   Service          a running service: both servers around one engine, and its requests as steps
--   Agent            internal/agent/agent.go, with Recall, Status and Show in Agent/Recall, and
--                    internal/agent/repl.go (Agent/Repl) and cmd/agent/main.go (Agent/Command);
--                    Agent/Monad is the calls with errors and panics
--   Tests            sample runs, and the theorems at concrete inputs
-- The other files below Engine hold what is proved: Write/Cases and Lifecycle/Cases split each handler
-- into a refusal and a success, Effect says what a call may do to a store, and Write/Posts, Read/Window,
-- Read/Ranking, Read/Search, Read/Hits, Read/Exact, Read/Listing, Write/Interleaved, Tools, Index,
-- Guard, Gate, Update, Update/Partial, Archived, Frozen, Drift and Consistent are named for what they
-- are about, and so are Mcp/Contract, Service/Invariant, Service/Tools, Agent/Session,
-- Agent/Recall/Bounds, Agent/Repl/Loop and Agent/Command/Stored.
--
-- How the model corresponds to the code:
--   - A handler is a function from the options and the engine to the engine and the response. A Go panic
--     is the outcome `panicked`.
--   - A text is a list of code points, so strings are valid UTF-8; `byte_length` is len. An instant is a
--     number of nanoseconds.
--   - A check that returns an error text returns an Option, with `none` for the empty text.
--   - `calls` of the engine counts the calls of the clock and of uuid, whose answers are parameters.
--   - A map is an association list in some order, which stands for the order of Go's iteration. A map
--     that is used as a set is the list of its keys. sort.Strings and sort.Slice are insertion sorts.
--   - Of the maps that the program writes to, only that of a header's fields may be nil, in a node that
--     was stored without one: the header has a flag `nil_fields`, and the assignment then panics.
--   - Every handler that changes a node of MemoryStore in place also puts it back, so a node that is
--     read, changed and put stands for the shared pointer. The engine drops the errors of PutNode and
--     DeleteNode, so these operations return the new state only.
--   - A JSON number carries its integer part, the only thing that the program reads of it. Go leaves open
--     what int makes of a float64 out of its range, so that is a parameter of the environment.
--   - The error text of a failed snapshot is left out of the message, and so are the texts of the
--     libraries' own errors in the agent.
--   - The badger database, the SQL table, the wire format of the servers and the HTTP client of the agent
--     are records of functions; IsBadger, IsTable and Connection say what is relied on.
--   - A request of a server is one step from an engine to an engine. A panic in a handler gives no
--     answer; net/http recovers it, and the engine stays as the panic left it.
--   - A call of the agent takes the world beyond the HTTP client and gives it back; the terminal is the
--     list of the texts that were printed. The lines that the scanner reads are an argument.
--
-- Bounds and fuel: natural numbers are unbounded, and the program's counters count list elements. The
-- limit of a search is an int of 64 bits. strconv.Itoa is written with fuel, n + 1 for the number n, of
-- which each digit takes one. All other recursions are structural.
--
-- Not modelled: cmd/server and cmd/mcp-server, which parse flags and start the processes; opening and
-- closing of databases; the transports of the MCP library; locks, and concurrent calls but for two
-- Appends; logging.
pub mod Prelude
pub mod Text
pub mod Dict
pub mod Model
pub mod Env
pub mod Validator
pub mod Paths
pub mod Params
pub mod Links
pub mod Entity
pub mod Store
pub mod Engine
pub mod Api
pub mod Mcp
pub mod Service
pub mod Agent
pub mod Tests
