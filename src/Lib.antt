-- ===== src/Lib.antt =====
-- Oxigeon: a server for multi-user dungeons in Rust, with game code in Lua.
--
-- A player's bytes come over telnet (src/core/network/telnet): the parser splits them into text,
-- commands, negotiations and subnegotiations; the relay hands negotiations to the option negotiator
-- and writes its answers, and the codec decodes text and GMCP messages and encodes what goes out.
-- Each connection has a session in the registry of src/core/session, which the relay and the game
-- use to log a player in and to send output; MXP (mxp.rs) marks up what goes out, and keeps the
-- marks of a player's own text from being obeyed.
-- A browser comes over a websocket instead (src/core/network/websocket): JSON frames carry its lines of
-- input and what it is sent, with escape codes as they are, as spans or not at all. A line with links
-- is a tree (src/core/render), which each transport renders for its client.
-- Heavy Lua jobs run in worker processes (crates/oxigeon-compute), which the compute bridge
-- (src/core/compute) starts, feeds from a queue and kills at their deadlines: it sends jobs over a
-- pipe, and the worker sends their results back, in the format of crates/oxigeon-lua/src/wire.rs.
-- Game code keeps documents in SQLite, and asks for them by fields whose names become part of the SQL
-- (src/domain/models/document.rs).
-- A login is checked by a pool of its own (src/core/auth.rs), which locks out addresses that fail.
-- The Lua debugger (src/core/scripting/debugger) has one hook in the VM, which traces, counts
-- instructions and stops at breakpoints, either the whole world or one dispatch.
--
-- Which file models what:
--   Base, Base.Tests, Base.Lists: shared names, Boolean tests, lists over the native numbers.
--   Base.Utf8: `str::from_utf8` and `String::from_utf8_lossy`, after their documentation.
--   Telnet.Constants, Telnet.Parser, Telnet.Codec, Telnet.Option: constants.rs, parser.rs, codec.rs
--     and option.rs, one function for each method, over an explicit state.
--   Telnet.Parser.Spec, Buffered, RoundTrip: the parser without its text buffer, that the parser does
--     the same, and what it makes of encoded input.
--   Telnet.Option.Link and the modules below it: two negotiators that send each other commands.
--   Telnet.Mxp, Telnet.Mxp.State, Telnet.Mxp.Reply: mxp.rs, the two functions that scan text, the
--     state of MXP, and the answers of a client. Scan, Guard, Unmarked, Gaps, State.Supports and Reply.Tokens
--     hold the proofs.
--   Telnet.Relay: `on_negotiate` and `handle_subnegotiation` of relay.rs; Telnet.Capabilities is
--     `ClientCapabilities` of src/core/session/capabilities.rs.
--   Telnet.Relay.Connection, Telnet.Relay.Loop: connection.rs, and the loop `run` of relay.rs with what is
--     before and behind it; Admitted, Lines, Hears, Commands, Published and Panics hold the proofs.
--   Session, Session.Handler: src/core/session/session.rs and handler.rs; Drops, Policy, Valid and
--     Permissions below them hold the proofs.
--   Wire.Cursor, Wire.Value, Wire.Message, Wire.Frame: wire.rs from the bottom up, with `LuaData` of
--     marshal.rs, `ComputeSettings` of settings.rs and `Ending` of vm.rs.
--   Compute, Compute.Operations, Compute.Pool, Compute.Worker, Compute.Roots: src/core/compute/mod.rs
--     and worker.rs: the data, what the game thread and the watchdog call, the host threads and all
--     events of a pool, the child processes, the modules that are allowed. Once and the modules below
--     it, and Roots.Segments, hold the proofs.
--   Auth: src/core/auth.rs; StrikeMap, Locked, Lockout and Rounds hold the proofs.
--   Debugger.State and State.Operations, Debugger.Rings, Debugger.Paths: state.rs, trace.rs and paths.rs
--     of src/core/scripting/debugger; State.Wanted, State.Invariant and Rings.Recent hold the proofs.
--   Debugger.Hook with Breakpoints, Stops and Events: hook.rs there, from the state of the hook to the
--     callback; Reports, Budget, Frozen and Thaw hold the proofs.
--   Debugger.Parked: parked.rs there, with the dispatch context of mod.rs; Collector and All hold the
--     proofs.
--   Debugger.Dap with Header: dap/codec.rs there, the framing of the messages of the debug client, over
--     a reader and a writer of JSON; Pieces and RoundTrip hold the proofs.
--   Render: src/core/render/mod.rs. Client is a client's reading of the markup, which stands apart from
--     the code and knows which lines are secure; Reads, Links and Agree hold the proofs.
--   Websocket.Ansi, Websocket.Frames: src/core/network/websocket/protocol.rs, escape codes and frames;
--     Ansi.Strip, Ansi.Bounds, Ansi.Paint and Frames.LineEnds hold the proofs.
--   Websocket.Connection: connection.rs there, with `WsRuntime` of mod.rs; Published, Silent and
--     Commands hold the proofs. Session.Commands is `LuaCommand` of src/core/scripting/engine.rs.
--   Documents, Documents.Query: src/domain/models/document.rs, the names of fields in queries, and the
--     text of a query with what is bound to it. Query.Meaning is a query with its values in their
--     places, which stands apart from the code; Literal, Query.Fills and Query.Holes hold the proofs.
--   Base.Decimal: `parse` and `{}` of an unsigned integer, after their documentation.
--   Base.Keyed: a `HashMap` with numbers for keys.
--   Wire.Reads, Wire.Ensures: how facts on reads of the cursor are put together.
--   Tests and the modules below it: runs on concrete inputs.
--
-- How the code corresponds: a byte is a number, a `Vec<u8>` and the bytes of a `String` are lists
-- of bytes, a `HashMap` of options is a function, a method that changes `self` returns the new
-- state. A `u64` is a number below 2^64, an `i64` and an `f64` are their 64 bits, and a map of a
-- table is the list of its fields in the order of the keys.
--
-- In mxp.rs a `&str` is the list of the codes of its characters, so that a slice inside a character,
-- which panics, is seen. A registry is the list of its sessions, with identifiers for keys. The
-- channel of a session is a parameter with its `try_send`, and so are the version of the package and
-- the JSON parser of the relay.
--
-- A compute pool is a bridge that events befall, in any order: a call of the game thread, a step of a
-- host thread or of the watchdog. What a lock covers is one event; `reap_expired` is also taken apart
-- into finding the expired jobs and acting on each, since its lock is released in between. Instants are
-- numbers, and each event says when it comes. What a worker process answers, what the system says to a
-- spawn or a write, whether a password is right, what the Lua VM says of the stack and of expressions,
-- and what becomes of a dispatch that is resumed, are arguments.
--
-- A telnet connection and a websocket connection are each a task that events befall, in any order. An
-- event of a websocket says whether what is written for it goes through; a write on a telnet connection
-- is taken to succeed, and a panic ends its task where it stands. How serde_json reads a message is a
-- parameter, and a JSON value is its bytes. In mod.rs of render a text is the list of the codes of its
-- characters, in protocol.rs and document.rs that of its bytes, since every place at which a text is
-- cut there is beside an ASCII byte.
--
-- The hook, its state, the rings and the shared debug state are one world that the callback maps to
-- another. The bits of `want` are a record of Booleans, the ring and registry are lists, oldest first. What another
-- thread does to the shared state falls between two operations; State.Wanted takes the one that computes
-- and stores `want` apart.
--
-- Bounds and fuel: `get_data` counts the nesting down from 257, which is `MAX_DEPTH` and the check
-- of it; `read_all` takes one unit of fuel for each frame and one for the end; the scan of
-- `strip_line_modes` and `escape` takes one unit for each character and one for the end. `resume_all` takes
-- one unit for each suspended dispatch, and a theorem says that more change nothing. The print of a
-- `usize` takes one unit for each of its 20 digits at most. An SGR parameter and a colour of the palette are
-- below 2^16 and 256. All other loops are by structural recursion.
--
-- Not modelled: sockets, tasks, timers and files; mlua, serde, diesel, tokio, rustls and argon2; a
-- pipe that fails; the texts of errors.
pub mod Base
pub mod Auth
pub mod Compute
pub mod Telnet
pub mod Wire
pub mod Debugger
pub mod Session
mod Tests
pub mod Websocket
pub mod Render
pub mod Documents
