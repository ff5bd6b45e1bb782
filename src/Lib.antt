-- ===== src/Lib.antt =====
-- The RBR multiplayer server: a UDP relay for cars and chat with an admin console. Ticks send to
-- every player the newest pose of the others.
--
-- Protocol models internal/protocol/protocol.go. Types has the messages and constants, Writer and
-- Reader the little-endian `writer` and `reader`, Encode and Decode one function for each Encode
-- and Decode function. A byte is a number, a float32 its bit pattern, a string a list of bytes.
-- RoundTrip, FixedText, Header, Takes, Truncated, Sizes, Ranges and Layout are about them.
--
-- History models internal/server/history.go: Ring is `History` with Add, Len and Latest, Lookup the
-- binary search of At, on fuel as large as the history, and Lerp the interpolation, where the
-- floating-point operations are a parameter. Bounds, Retention and Bracket are about them.
--
-- Server models internal/server/server.go and bans.go. Types has the state; Session the handlers
-- join, state, pong and bye with clientLocked and sendWelcome, Chat chat and Say, Handle the
-- receive loop's handle and send, Tick the tick, Admin Kick, Ban, Unban and Bans, Start New and
-- Config, Bans the ban list with its file. A handler takes the state and the clock and returns the
-- new state with the datagrams that it sends, in order. Run has the histories in which handlers
-- come one after the other. Interleave has the goroutines: its steps are the critical sections of
-- the server's one mutex, and its executions every order of them. Race has a Kick between the two
-- sections of a Hello. Invariant, Values, Sessions, Absence, KickWindow, Isolation, Relay,
-- Sequence, PingPong, BanEffect and FindClient are about the server. Stats has statsLoop and
-- tickLoop. Relay follows a State through handle and the tick into the datagrams of the other
-- players, which needs Values: what a server holds fits the fields of the messages.
--
-- Console models internal/server/rcon.go: Command its commands, Listing the lines of `players`,
-- `status` and `bans`, Session a connection: its scanner with the buffer of 4096 bytes, then the
-- lines from the first on. Words has TrimSpace and Fields, Messages the texts. Response has the
-- responses as rconSession writes them and as `response` of cmd/clirbrmp/main.go reads them, from
-- the lines of Scanner, on fuel that exceeds the number of bytes of the stream; Fuel says why that
-- is enough. Total, Safe, Framing, Forged and Padded are about them.
--
-- Programs models cmd/. ConsoleClient is clirbrmp: password, login, one-shot command and
-- interactive loop, on a connection that has the bytes from the server and the number of writes
-- that go through. Dialogue, Serving, Login and LongLine join it with the server's Session.
-- ServerMain is rbrmp-server from the parsed flags to the exit status. Simulator is rbrmp-sim: the
-- circle of the fake car, Receive what it makes of a datagram, of which its buffer takes 8192
-- bytes, Loop its main loop over the events that `select` takes, with the clock readings as inputs.
-- Floating-point operations are a parameter.
--
-- Common has what these share: Go's maps as association lists, in whatever order `range` visits
-- them; fixed-width integers, decimal texts and sorting. Clock has Go's times and durations:
-- nanoseconds from the zero time, with the saturating Sub. Examples has the runs at concrete
-- values.
--
-- An id wraps after 2 ^ 32 joins and a snapshot counts at most 2 ^ 16 - 1 entities; theorems that
-- depend on it ask for ids that are left. Parameters of the model are the floating-point
-- operations, encoding/json, the answers of the file system and the network, strings.EqualFold and
-- net.ParseIP, and what the console prints by ToLower, %q, RFC3339 and Duration.String. Not
-- modelled are the log, the sockets with their deadlines, the timers, the signal handler, flag
-- parsing, and the texts that the programs of cmd/ print, but for what they are made from.
pub mod Common
pub mod Protocol
pub mod Clock
pub mod History
pub mod Server
pub mod Console
pub mod Programs
pub mod Examples
