-- ===== src/Lib.antt =====
-- A verification library for the butterstack connector, the daemon that a studio runs inside its
-- network and that executes allowlisted commands of a broker against the studio's tools.
--
-- The parts, and the files that model them (paths from the repository's root):
--
--   internal/vocab/vocab.go: Vocab. Schema has the types, Table the allowlist with its banned
--   argument names, Scoping the depot scope (literalPrefix, withinPrefixList, checkScope,
--   validateDepotPath), Validate the argument checks, Resolve the lookup and the decision, and
--   Selfcheck the invariants that the process checks at its start.
--   internal/protocol/protocol.go: Protocol, the frames and how they are decoded.
--   internal/audit/audit.go: Audit, the local log with one file for each day.
--   internal/session/session.go: Session. Limits has the constants and what is computed from them,
--   Dedupe the window of command ids (claim), Handle the command path (handle and execute) as one
--   step, Pump the read loop and its workers (pump) as interleaved steps, Connect the session of
--   one connection (runOnce, toolVersions), Run the loop that reconnects (Run and classify), and
--   New how a session gets its executors from the configuration (New).
--   internal/wsclient/wsclient.go: WsClient, the frames and messages of the WebSocket client;
--   WsClient.Dial, the opening handshake (Dial, AcceptKey), and WsClient.Closing, Close.
--   internal/tools/tools.go: Tools, the arguments of the executors.
--   internal/tools/perforce.go: Tools.Perforce, how a record of p4 becomes a bounded answer, and
--   the bound on what p4 may print; Failures, how its errors are told apart (failureDetail and what
--   it calls); Running, the executor that starts p4 (run, Execute).
--   internal/tools/teamcity.go: Tools.Teamcity, the executor that asks a TeamCity server, how it
--   reads the answer, and redactURL.
--   internal/config/config.go: Config, the loading of connector.yml with its rules and secrets;
--   Config.Redacted, the summary that is printed (Redacted).
--   cmd/butterstack-connector/main.go: Daemon, the daemon from its configuration to its end (run,
--   splitLines).
--   Json and Regexp model what the code uses of encoding/json and of regexp. Prelude has the shared
--   types, the text functions of strings, the wrapping integers and the lemmas on them.
--
-- The daemon (Daemon) loads its configuration, builds a session (Session.New), and runs it until it
-- is stopped or refused (Session.Run), one connection after another (Session.Connect). A command
-- arrives as a frame, is decoded (Protocol), gets a worker (Session.Pump), is claimed
-- (Session.Dedupe), resolved against the allowlist (Vocab.Resolve), which validates its arguments
-- (Vocab.Validate) and tests the depot scope (Vocab.Scoping), is run by the executor that
-- Session.New has put behind the tool's name (Tools.Perforce.Running, Tools.Teamcity), and is
-- answered after one line is written to the local log (Audit).
--
-- How the code is modelled: a Go string is its list of bytes; an int or a time.Duration is an
-- integer with its wrap-around at 64 bits written out; a map is an association list or a function;
-- a pair of a value and an error is Except. State is passed along: Runner holds the ids seen, the
-- log and the calls of tools made so far; Conn holds the bytes that a server will have sent and
-- those written. Recursion is structural; two loops take fuel, ReadMessage as much as the stream
-- has bytes (a frame takes two at least) and describeFromRecord as much as the record has members
-- (each file takes one), and both are proved to end within it.
--
-- Goroutines: Session.Pump has the reader and the workers of a connection as a step relation,
-- where a worker claims its id, finishes its command and sends its answer in separate steps, in
-- any order with those of the others; what a mutex of the source guards is one step. A command's
-- run is one step with its line in the log. Session.Handle is the same work of a single worker.
--
-- Effects on the outside are recorded where they are made: the calls of tools in the runner, the
-- processes that the Perforce executor starts and the requests that the TeamCity executor sends next
-- to its results, and the session that the daemon leads in how it ends.
--
-- Parameters, for code outside of the repository: the start of a process (what p4 prints and how it
-- ends), the HTTP client of the TeamCity executor, the streaming JSON decoder that it reads an
-- answer with, the network and TLS below the handshake, the parser of its HTTP answer, SHA-1 with
-- base64, the SHA-256 digest, the random numbers, the clock (times are inputs), the environment,
-- the file system, the YAML decoder, the URL parser, ParseFloat, how fmt.Sprint and durations
-- print, and Perforce's matching of paths (Vocab.Scoping.Matching.Perforce), with the documented
-- behaviour of its wildcards.
--
-- Not modelled: deadlines and timeouts as such (that one has passed is an input), LocalAddr,
-- LastActivity and IsTimeout of the WebSocket client, ArgsDigest of the log, the flags and signals
-- of the command line, the printing of the vocabulary, UnmarshalYAML, documentation texts, time
-- stamps and the printing of formats. White space and capital letters are those of ASCII, where
-- strings.TrimSpace and strings.ToLower know others too. A write to the log that fails loses the
-- whole line, where it may leave a part of it.
pub mod Prelude
pub mod Json
pub mod Regexp
pub mod Vocab
pub mod Protocol
pub mod Audit
pub mod Session
pub mod WsClient
pub mod Tools
pub mod Config
pub mod Daemon
pub mod Tests
