-- ===== src/Lib.antt =====
-- proto4: a small frame protocol over TCP (tiny_frame), and two services that speak it: dfinder, a
-- registry in which nodes are found by their labels, and prom_proxy, which forwards Prometheus
-- remote writes and counts them in Redis. The Go packages of the same repository speak the protocol
-- too: tinyframe, a client of the proxy, and the command tframe.
--
-- The program's parts, and the files that model them (paths from the repository's root):
--   src/tiny_frame.rs             TinyFrame: Types, Key, Bytes, Header, Payload, Wire, Stream
--   src/dfinder/protocol.rs       Dfinder.Protocol
--   src/dfinder/store.rs          Dfinder.Store
--   src/dfinder/server.rs         Dfinder.Server: State, Locked, Handlers, Interleaving, Serving
--   src/dfinder/client.rs         Dfinder.Client
--   src/prom_proxy/protocol.rs    PromProxy.Protocol
--   src/prom_proxy/client.rs      PromProxy.Client
--   src/prom_proxy/encode.rs      PromProxy.Encode and PromProxy.Encode.Text
--   src/prom_proxy/edge.rs        PromProxy.Edge
--   src/prom_proxy/server.rs      PromProxy.Server: State, Serving
--   src/bin/prom_proxy.rs         Binary: Hex, Main
--   tinyframe/frame.go            Go.Frame: Types, Codec, Key, Payload, Stream
--   promproxy/client.go           Go.Client, Go.Client.Ids, Go.Hex
--   promproxy/encode.go           Go.Encode
--   cmd/tframe/                   Go.Command: Manifest, Get, Main
-- The other files hold theorems, named for what they are about, and tests. Dfinder.EndToEnd,
-- PromProxy.Server.Forwarding and Completes, and Go.Client.Forwarding put a client and a server
-- together: the bytes that one has written are the stream that the other reads.
--
-- How the code is rendered. A function of the source keeps its name; what the source writes within
-- a function and the model as one of its own (a loop, a section under a lock, the arms of a match)
-- has a comment that says where it stands. Results are `Outcome`: `ok`, `err`, or `panicked` for
-- the panics that the code can raise. Code that changes a state is `Exec`, a state monad in which
-- what was changed before an error stays changed. Integers are native naturals with the wrap-around
-- written out; `i64` is `ℤ` of Base.Integers. Bytes are naturals below 256.
--   Streams. A reader has the bytes that will arrive and the error behind them; a writer has room
-- for so many bytes, and what it has written and flushed. A write that does not fit sends what
-- fits. A connection is one writer and one reader.
--   tiny_frame. A frame is a header byte (five bits of type, the encryption bit, two of
-- compression), eight bytes of transaction id, two of length, and the payload: compressed first,
-- and then, if the bit is set, a nonce of twelve bytes and the encryption with header byte and
-- transaction id authenticated. The key cell is unset, set to no key, or set to a key.
--   dfinder. The server's state behind its lock is `Inner`: the table, the health map, the probe
-- and the time to live. A handler reads one frame and answers it. A probe cycle is three kinds of
-- sections under the lock (list, mark one node, remove the expired ones); `Interleaving` is the
-- relation in which registrations come between them, and `run_probe_cycle` the uninterrupted run.
-- `Serving` is the whole server: a list of tasks, one for each accepted connection, which read their
-- frame, run the section of their handler under the lock (`respond`) and write the reply, each in a
-- step of its own; the probe task, whose steps are those of `Interleaving`; and the accept loop,
-- with the binding of the listener before it and the abort of the probe behind it. What a run has
-- done is said of its steps one by one (`During`).
--   prom_proxy. The handler reads one frame, posts its payload to the upstream, counts the result,
-- and answers; `World` holds the counters' database, the requests made so far, and the bytes sent.
-- `Serving` is the whole proxy: each connection's task reads, posts, counts and answers in steps of
-- its own, and the task of the report reads the totals in one step and posts them in another.
-- `push_families` and the functions below it are the nested loops of `encode_metric_families`, with
-- the vector of series handed from one to the next.
--   Go. The packages have their own errors and their own codec, since Go compresses and encrypts
-- with the standard library's packages and `x/crypto`. Go.Frame.Agrees compares the two readers and
-- writers of frames, first with one codec for both, and in Codecs with the codec of each: there a
-- frame's data has to be packed or unpacked alike, since the libraries need not agree on every
-- stream. Go.Frame.Interop lets each side pack with its own codec (`between`), where what the two
-- libraries owe one another, that each unpacks what the other has packed, is a law. The ids of the
-- Go client are handed out by a loop around a compare-and-swap: `Go.Client.Ids` is the relation of
-- its steps, over any number of goroutines that share the counter. A context's deadline is a stream
-- that ends early. Texts of Go are taken as valid UTF-8, and `lower` stands for `strings.ToLower`
-- only where its result is compared with ASCII texts.
--
-- Bounds. The loops are structural recursion on lists, and `hex_pairs` on the number of pairs in the
-- text; only `decimal` of Base.Text has fuel, one unit for each digit: twenty, with which every 64-bit
-- number is written out. A run of a server is a sequence of steps of any length.
--
-- What is not under src/ is a parameter, with laws where a theorem needs them: flate2 and the
-- cipher (`Codec`: what is compressed is decompressed, what is encrypted is decrypted, only a
-- ciphertext of a text decrypts to it, and it is sixteen bytes longer), the random nonce (any
-- twelve bytes), serde_json (`Coder`), SQLite (`Sqlite`: one function for each statement, laws on
-- the row of each key), Redis (`Redis`: two commands, which may fail, laws on the fields of the
-- hash where they do not), the snappy encoder, prost, the metrics and the f64 numbers of the
-- prometheus crate, the HTTP client (the answer to each request), the probes, the clocks, and the
-- parser of socket addresses; of the Go code, compress/*, the cipher, encoding/json, prompb, dto
-- and snappy, url.Parse, the flag package, the file system and the dialer. Instants and durations
-- are numbers of nanoseconds.
--
-- Not modelled: how long a timer waits (a tick can come at any step of a run), the texts that are
-- printed as diagnostics, the handles that `spawn` and `spawn_with_addr` return, the crate's root,
-- which only names its modules, and the tests of both languages.
pub mod Base
pub mod TinyFrame
pub mod Dfinder
pub mod PromProxy
pub mod Binary
pub mod Go
