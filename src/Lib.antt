-- ===== src/Lib.antt =====
-- A model of the CTP trading server: clients send envelopes over TCP, the server checks what they may
-- do with which account, and one task per account drives a CTP trading connection; market data is
-- subscribed once at the exchange and fanned out to the clients. Clients reach the server through a
-- TCP client that reconnects and sends again what restores their session.
--
-- How the parts interact. An envelope is handled by `handle_envelope` of
-- crates/server/src/adapter/internal/tcp_server.rs (Gateway). A trading request goes through a method
-- of `ServerActorState` in crates/server/src/actor/trade.rs (Routing), which asks the session manager
-- of crates/server/src/session.rs (Session) and puts a command into the channel of the account's task.
-- The task (TradeActor) makes requests on its connection and awaits events; the connection is
-- crates/server/src/adapter/exchange/trade.rs (TradeSession), whose callbacks, run by the CTP thread,
-- emit those events (TradeSession.Spi). Reports reach clients through the pushes of
-- crates/server/src/actor/common.rs (Server). Subscriptions and ticks are those of
-- crates/server/src/actor/data.rs (MarketData).
--
-- The files:
--   Prelude, HashMap, HashSet: tests on numbers and texts, lists, a monad of errors and state, and the
--     collections of std with their laws.
--   Model: crates/model (enums.rs, types.rs, identifiers.rs, ctp.rs, reports.rs).
--   Protocol: crates/common/src/protocol.rs, and the values that error texts are formatted from.
--   Session, Server, Server.Config: session.rs, actor/common.rs and config.rs, whose loading is
--     `Server.Config.Load`.
--   MarketData: actor/data.rs; a child module for each operation's laws, `Exchange` for histories,
--     `Task` for the market-data task and the requests of its quote client, `Task.Spawn` for its loop.
--   Network: crates/common/src/network. mode.rs, backoff.rs and error.rs are `Mode`, `Backoff` and
--     `SendError`; tcp_client is `Frame` for the bytes of frames and `TcpClient` for the tasks, with
--     `Connect` for the first connect, `Send` for the callers, `Run` for sequences of actions, and
--     `Replay` and `Closed` for their laws; ctp_client is `QuoteClient`.
--   Client: crates/client, `Client` for connection.rs, `Trading`, `MarketData` and `Credentials` for
--     the files of these names, `Inbound` for the way from the server's write loop to the client,
--     `Trading.Greeting` for a client together with the tasks of its connection, `Main` for the
--     helpers of main.rs.
--   TradeSession: adapter/exchange/trade.rs and mapping.rs; `Events` the events, `Fields` the structs
--     that are read, `Spi` the callbacks, `Callbacks` sequences of them, `Echo` the way there and back.
--   TradeActor: actor/trade.rs, a module for each handler that awaits events (`Login`, `Cancel`,
--     `Query`) and `Commands` for the handlers of commands and events; `Loop` has the rules of loops.
--   Routing, Gateway: the methods of `ServerActorState`, `handle_envelope`, and in `Connection` the
--     loop that reads a client's frames with the cleanup at its end, in `Writer` the loop that writes to it.
--   Scenarios: the theorems at concrete inputs.
--
-- Conventions. A function carries the name of the source's function. An i32 and an f64 are bit
-- patterns in the natural numbers; only the request counter computes, and wraps at 2 ^ 32. An
-- anyhow::Error is the value that its text is formatted from. A channel is a number; what is put into
-- channels is kept in lists, newest first, and `is_open` says which have a receiver. Time is what the
-- clock is said to show. Iteration over a HashMap follows its list.
--
-- Loops. A loop that awaits events runs over a list of deliveries, each with an event (or none, where
-- the channel is closed), with what other tasks have done to the shared server and the CTP thread to
-- the shared state of the session meanwhile, and with the time; a loop that runs out of deliveries is
-- waiting. The loop that reads a client's frames runs over them in the same way. The tasks of the TCP client are steps between two
-- awaits, each taken as one, in any order; a caller on another thread that comes between the parts of
-- such a step is not covered. Only the read loop of frames has fuel, one round for each
-- byte and one more, which is enough.
--
-- Parameters. The native CTP library is its constants and the code with which it answers each request;
-- chrono's parser and str::trim are functions; a fault in building the native api is a value.
--
-- Not modelled: sockets, JSON, the file system and the native library itself; the main functions of
-- the command-line programs, which are wiring and console output; logging.
pub mod Prelude
pub mod HashMap
pub mod HashSet
pub mod Model
pub mod Protocol
pub mod Session
pub mod Server
pub mod MarketData
pub mod TradeSession
pub mod TradeActor
pub mod Routing
pub mod Gateway
pub mod Client
pub mod Network
pub mod Scenarios
