-- ===== src/Lib.antt =====
-- smtp-gateway: a server for incoming SMTP (RFC 5321) that hands each mail to callbacks.
--
-- The program and its model:
-- - `Wire`: what the client sends, as a stream of bytes and of read errors, and `readLine` of
--   smtp.go over the reader's `ReadSlice`. `Wire.Body` is `readDotUnstuffed`, the body of DATA;
--   `Wire.Chunk` is `readNBytes` and `Discard`, the chunks of BDAT. Below them stand the proofs:
--   `Wire.Slices` and `Wire.Line` (lines), `Wire.Body.Fuel` (the loop ends), `Wire.Body.Stuffing`
--   (what is sent is read back), `Wire.Body.Limits` (sizes), `Wire.Rest` (what is left to read).
-- - `Text`: what the program uses of Go's packages strings and strconv, on bytes. `strings.ToUpper`
--   of text that is not ASCII is a parameter, `unicode_upper`.
-- - `Command`: `splitVerb`, `parseMailFrom`, `parseRcptTo`, `parseBdatArgs`, `validateHeloDomain`,
--   `containsControl` and `contains8Bit` of smtp.go; `Command.Address` is about the paths.
-- - `Response` and `Server`: the types, methods and constants of gateway.go. `Server.Start` is
--   `NewServer`, its options, `defaultHostname`, the checks and defaults of `Serve`, and
--   `readDeadline`;
--   `Server.Accepting` is the accept loop, as steps that may come in any order, and
--   `Server.Closing` adds `Shutdown`, the wait group and the return of `Serve`.
-- - `Session`: one connection. The state holds the variables of `handleConn` (`tx`, `phase`,
--   `inBdat`), the `connState` and a trace of the calls out of the program. `Session.Calls` has
--   `conn.write`, the four callbacks and `writePostcat`; `Session.Greeting` has `handleGreeting`,
--   `handleHelo`, `handleEhlo` and `handleStartTLS`; `Session.Envelope` has `handleMail` and
--   `handleRcpt`; `Session.Content` has `handleData` and `handleBdat`; `Session.Loop` has the loop,
--   from the banner to the end.
-- - `Session.Invariant` is what holds between two commands; the files below it prove that each
--   command keeps it, and `Session.Safety` draws the conclusions for a whole connection.
--   `Session.Transaction` is about single commands, `Session.Chunks` about a series of BDAT, and
--   `Session.Ending` about the input that is left, and the end of a connection.
-- - `Pipeline`: the same connection as its two goroutines, `readCommands` and the worker loop, with
--   the channels `events` and `resumeCh`. Their steps interleave in any order; `Reachable` are the
--   states that they lead to. `Pipeline.Discipline` is about the channels, `Pipeline.Progress` about
--   waiting, `Pipeline.Safety` about the invariant of a session. `Pipeline.Independence`, `Ahead`,
--   `Simulation` and `Matching` put it beside `Session.Loop`, for `Pipeline.Refinement`;
--   `Pipeline.Sequential` goes the other way. `Session.Effects` and `Pipeline.Effects` carry what the
--   calls of `Env` keep over a session.
-- - `Postcat`: `FormatEnvelope`, `Parse` and their parts in internal/postcat/postcat.go;
--   `Postcat.Sanitize` is about `sanitizeAddr`, `Postcat.Lines` about lines and the blank line, and
--   `Postcat.RoundTrip` about writing and reading back. `Postcat.Files` is `Write`, over a disk of
--   which every operation may fail, and `Postcat.Files.Atomic` says what it leaves.
-- - `Replay`: `sendBody` and `formatSender` of cmd/postcat-replay/main.go; `Replay.Body` and
--   `Replay.Sender` put them beside the server's readers. `Replay.Dialogue` is `expect`, `replay` and
--   the exit code; `Told` and `Sent` below it are about what is written, `Lines` and `Received` about
--   what the server reads of it, `Answers`, `Granted` and `Replies` about what the server answers.
-- - `Examples`: the configuration, the servers and the handlers of examples/s3/main.go and
--   examples/postcat-only/main.go; `Examples.S3.Stored` is about one message, and
--   `Examples.S3.Durable` about the store behind whole connections.
-- - `Tools`: cmd/postcat/main.go, cmd/verify-postcat/main.go and cmd/test-server/main.go;
--   `Tools.Verified` is about the exit code of verify-postcat.
-- - `Bench`: the session of bench-go-smtp/main.go and the file it writes, over the disk of
--   `Postcat.Files`; `Bench.Agreement` puts it beside `Write`.
-- - `Tests` has concrete servers, clients and handlers, and its children run the model on them.
--
-- How it is modelled. The handler, the network, the TLS library, the disk and the server's context
-- are the record `Env` over a state of their own, about which nothing is assumed: a callback may
-- return any response, or nil, or panic; any write may fail; a read may fail at any point of the
-- stream. Numbers are natural; `int` sums that may pass 2^63 wrap as in Go (`add_int`). The loops
-- of `readLine` and `readDotUnstuffed` run on the length of the stream as fuel, and each round of
-- them shortens the stream. The loop of a connection is run for any number of rounds, since a
-- client may go on for ever; `closed` says that `handleConn` has returned.
--
-- The reader goroutine stops behind DATA, BDAT and STARTTLS until the worker has taken the bytes
-- that follow. `Session.Loop` reads each command when it is due; `Pipeline` reads ahead as the
-- program does, one step for each send, receive, handler and reply, where the cancelled context and
-- the timer of a minute over ReadTimeout may end the reader's waits at any time. The delay before a
-- cancelled connection is closed is left out. Log calls are left out.
-- Callbacks see the transaction and do not change it, although `*Tx` would let them.
--
-- In a session a call of postcat's `Write` is an event of the trace: its error is only logged. The
-- name of the file that it writes, and the sync of the directory behind it, are left out.
--
-- A replay meets a server that has sent any bytes, and a connection that takes any number of bytes
-- before a write fails. The loop of `expect` runs on the length of the stream as fuel. In the
-- examples the object store's library, gzip, SHA-256, the environment and the clock are parameters.
--
-- Not modelled: the logger and `truncate` of smtp.go, which serves it alone; flags, listeners,
-- signals and the text that the tools print, which are input and output only; the library that the
-- benchmark measures; and the tests.
--
pub mod Base
pub mod Wire
pub mod Text
pub mod Command
pub mod Response
pub mod Server
pub mod Session
pub mod Postcat
pub mod Replay
pub mod Pipeline
pub mod Bench
pub mod Examples
pub mod Tools
mod Tests
