-- ===== src/Lib.antt =====
-- The verification library of wirechat-server, a chat server with rooms, friends and calls.
--
-- The program is a hub that owns the rooms and the connected clients (internal/core), two services
-- that the HTTP and WebSocket handlers and the hub call (internal/service/friends and
-- internal/service/calls), a media engine behind the second (internal/callengine), accounts and
-- tokens (internal/auth), and a store on SQLite behind all of them (internal/store). The handlers
-- (internal/transport/http) are the way in: a WebSocket connection says hello, and its messages
-- (internal/proto) become the hub's commands; the REST routes call the services and the store.
--
-- - Common, Common/Tests, Common/Lists, Common/Texts: tests on numbers and texts, the loops over
--   lists, and what the code uses of Go's package strings.
-- - Effect: code that changes a state and may fail with an error, as Go's `(value, err)`.
-- - Store: internal/store. Store/Types has the records of store.go; Store/World the tables, and the
--   environment (driver errors, clock, random ids); Store/Users, Store/Friends, Store/Rooms,
--   Store/Messages and Store/Calls one function per method of sqlite.go, under the same name in
--   snake case. Store/Friends/Rows, Store/Calls/Rows and Store/Calls/Running have what the
--   statements do to the rows, Store/Rooms/Direct what CreateDirectRoom does, and
--   Store/Rooms/Untouched says that rooms and members are as before. Store/Samples has small
--   databases for the tests.
-- - Friends: internal/service/friends/service.go, a function per method. Friends/Frame,
--   Friends/Quiet, Friends/Pairs: what the methods leave alone, what they do on a healthy driver,
--   and the rows of two users; Friends/Blocks, Friends/Requests, Friends/History: the properties.
--   Friends/RoomsKept and Calls/RoomsKept: the services leave the rooms alone.
-- - Engine: internal/callengine, the interface as a record and LiveKit's implementation.
-- - Calls: internal/service/calls/service.go, a function per method; Calls/Start has those that
--   make a call, Calls/Join `GetJoinInfo`, and Calls/Shared what they share. Calls/Frame,
--   Calls/Lifecycle, Calls/History, Calls/Access, Calls/Running, Calls/Emptied and Calls/Rejoined
--   as above.
-- - Hub: internal/core. Hub/Types has the messages, events, commands, clients and rooms; Hub/State
--   the state `coreHub` and the sends on channels; Hub the commands of rooms; Hub/CallCommands the
--   commands of calls over the interface CallService; Hub/Loop `handleCommand` and `Run`.
--   Hub/Rooms, Hub/Frame, Hub/Members, Hub/Leaving, Hub/Logic, Hub/Commands, Hub/Invariant,
--   Hub/Served, Hub/Returns, Hub/Progress, Hub/Delivery, Hub/Closed, Hub/Membership, Hub/Refinement
--   and Hub/Shutdown have the proofs; Hub/Samples has hubs for the tests. Hub/Commands proves the
--   call commands once, for any logic (Hub/Logic) of code that only sends. Hub/Tables is the logic
--   of what a command does to a table and to the store's calls, Hub/Complete that of events which
--   the mapper can print, Hub/Ringing is about invitations, and Hub/Unheard about a hub in which
--   nobody has a user id; Hub/Closed is about clients that are gone, and Hub/Stale about users'
--   entries that outlive their clients. Hub/Channels has the hub's channels and the goroutines
--   around the loop (`RegisterClient`, `UnregisterClient`, `consumeCommands`), each step of which
--   is an act of a schedule; Hub/Channels/Line, Hub/Channels/Order, Hub/Channels/Rooms,
--   Hub/Channels/Bounds and Hub/Channels/Schedules have the proofs.
-- - Auth: internal/auth, over a record of what it calls of bcrypt, the JWT library and crypto/rand.
--   Auth/RoundTrip has jwt.go's theorems and the laws of the library that they use, Auth/Names and
--   Auth/Accounts those of service.go; Auth/Samples is a library of that kind for the tests.
-- - Proto: internal/proto/message.go.
-- - Http: internal/transport/http. Http/Mapper is mapper.go, Http/Limiter ratelimit.go, Http/Socket
--   the read loop and `handleHello` of ws_handler.go; Http/Response the answers and the steps that
--   all REST handlers share; Http/Rooms room_handlers.go, Http/Friends friends_handlers.go,
--   Http/Calls calls_handlers.go, Http/Accounts api_handlers.go, user_handlers.go and
--   middleware.go; Http/Server the routes of server.go. Http/Server/Guard, Http/Server/Outsiders,
--   Http/Server/Privacy, Http/Server/Quiet, Http/Server/Routes, Http/Server/Members,
--   Http/Rooms/Owners, Http/Rooms/Pages, Http/Rooms/Joining, Http/Socket/Allowed, Http/Socket/Rate,
--   Http/Socket/Kinds, Http/Socket/Speech and Http/Socket/Identity have the theorems, Http/Delivery
--   those of a connection and the hub together. Http/Connection is `ServeHTTP`, the reads of
--   `readLoop` and `writeLoop` of ws_handler.go; Http/Connection/Frames and Http/Connection/Closing
--   say what is written, and how a connection is closed.
-- - Config: internal/config/config.go, and the configuration of tokens of internal/app/app.go.
--   Config/Loader: internal/config/loader.go, over a disk and libraries that are a parameter;
--   Config/Samples has such a machine.
-- - App: internal/app/app.go. App has the calls service as the hub's CallService; App/Start `New`,
--   the end of `Run`, the flags of cmd/server/main.go and `parseLevel` of internal/log/logger.go;
--   App/Main the program from its flags to its end; App/Calls, App/Privacy and App/Fresh are about
--   the hub and the service together.
-- - Chat: scripts/ws_chat/main.go, the client of the terminal; Chat/Shown is about two of them with
--   the server between.
--
-- State is passed explicitly. The database is a record of tables, a statement is a function on them
-- that the driver may refuse at any time (`Env.faulty`), and an UPDATE, INSERT or SELECT is read
-- from its text. The hub is the goroutine that runs `Run`: the loop's inputs are a list, in the
-- order in which `select` takes them, so every interleaving of clients is a list. A client's
-- channel is a list of at most eight events; a send on a full channel waits for the write loop,
-- which takes one event, or waits for ever where the write loop has ended (`stuck`); a send on a
-- closed channel panics. Maps whose order does not matter to the code are lists. All loops are
-- structural, so no fuel is used.
--
-- Between two turns of the loop a connection changes its client: the write loop takes an event or
-- ends, and a hello sets the user id, the name and the guest flag. These changes are inputs of the
-- run as well, in any order with the others. The handling of one input is one step, in which
-- nothing else happens but that a running write loop makes room for a send. A command may come from
-- any client, as in the code; where a theorem needs a client of the hub, or its write loop, it says
-- so.
--
-- A REST handler takes the user of the context, and its body and parameters as the framework
-- decodes them (`none` where that fails; a negative number, of which no row has the id, counts as
-- 0), and gives the answer and the new world. The read loop is a function of one message, and a
-- list of messages is a run of it between two resets of the limiters.
--
-- The channels are lists with the code's capacities: an act that would wait is not possible, a send
-- in a `select` with a default drops the value. A schedule is a list of acts.
--
-- Not modelled: upgrading a connection, writing JSON, timers and logging; opening and closing the
-- database; scripts/ws_smoke and the token server, which are manual tests. SQLite, bcrypt, JWT,
-- viper, YAML, zerolog and the LiveKit library are not part of the program: what is called of them
-- is a parameter. 64-bit ids are naturals, since the program only compares them.
pub mod Common
pub mod Effect
pub mod Store
pub mod Friends
pub mod Engine
pub mod Calls
pub mod Hub
pub mod Auth
pub mod Proto
pub mod Http
pub mod Config
pub mod App
pub mod Chat
