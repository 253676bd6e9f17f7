-- ===== src/Lib.antt =====
-- The WiltKey relay: a blind store-and-forward server for encrypted messages, in Go. Clients hold a
-- WebSocket and send frames; a message goes to the recipient's socket, or waits for him in a queue,
-- a table or an object store. HTTP endpoints serve clients without a socket. This library models the
-- server under wiltkey_server/.
--
-- The parts, and the files that model them:
--   Prelude, Time: what Go gives the program. Slices are lists, a map[string]V is GoMap, strings have
--     byte lengths, a time is a number of nanoseconds since 1970. Numbers are natural numbers; the
--     int64 counters of the program are far from 2 ^ 63, and no result depends on a wrap-around.
--   Redis: wiltkey_server/redis.go in its in-memory mode, one function per method, with the present
--     as an argument. Queue, Blocks, Once, Limits and Tokens split its maps; all stand in one
--     RedisClient, as several methods share a map. Redis/Server is the other mode of the same file:
--     Server.antt has the commands of a Redis server as an interface with the laws that are
--     documented of them, and Gates, Values and Counters the methods' branches over it. The handlers
--     are modelled over the in-memory mode.
--   Db: wiltkey_server/db.go. A table is a list of rows, a statement a function on it. `now` is
--     Postgres's NOW() and time.Now() at once.
--   Crypto: wiltkey_server/auth.go, voucher.go, pow.go and internal/cryptoops/cryptoops.go, with the
--     encodings that Go's library gives them: Hex, and Base64 for the nonces. SHA-256 and Ed25519 are
--     parameters.
--   Play: the clients of Google. google_oauth.go is the cache of access tokens, Billing the verdict
--     on a purchase (play_billing.go), Integrity the verdict on an integrity token, the nonce and the
--     attestations (play_integrity.go). Google's answers and the signed assertion are a parameter.
--   Storage: the URLs of wiltkey_server/storage.go and storageKeyFromURL of main.go. The store itself
--     is a map from keys to bodies.
--   Relay: the handlers of wiltkey_server/handlers.go, the delivery and dispatch of websocket.go, the
--     endpoints of main.go, push.go and social_stories.go, and the cleanup worker of main.go. They
--     share a World: Redis, the tables, the objects, the connections, and what was sent. An Env holds
--     what a call finds outside: the time, which calls of the stores fail, and the names that it
--     draws for UUIDs and tokens. Dispatch runs histories of such calls. Auth is the handshake of
--     ServeWS (websocket.go), with the peer as a strategy that answers what he is sent; Flood the
--     loop of readPump with its token bucket; Hub the registration of sockets (Hub.Run) as a step
--     relation; Challenge the human challenge of puzzle.go, also over a Redis server.
--   Examples: concrete inputs at which the results apply.
--
-- A handler is one step: its calls are in the order of the code, and each of them may fail, but two
-- handlers do not interleave. A frame that is sent is recorded with its connection; the channels of
-- a connection are not modelled. Every function is total by recursion on lists or texts; the one with
-- fuel is `decimal`, whose twenty digits suffice for an int64.
--
-- Not modelled: the sorted sets of redis.go's queue over a Redis server, SQL, the S3 client, the push
-- service client fcm.go, the transport and the JWT of google_oauth.go, the loading of credentials and of the
-- environment at the start, JSON, HTTP parsing and the client's address; the channels and the
-- deadlines of a connection, and the rounding of the flood guard's float64; the command
-- cmd/puzzleplay; the client under wiltkey_client/.
pub mod Prelude
pub mod Time
pub mod Redis
pub mod Crypto
pub mod Play
pub mod Storage
pub mod Db
pub mod Relay
pub mod Examples
