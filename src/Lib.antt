-- ===== src/Lib.antt =====
-- A model of tunnelfetch, an HTTP client that speaks TLS, HTTP/1.1 and HTTP/2 over raw sockets.
--
-- The parts, the files that model them, and how the parts meet:
--
--   Errors: src/errors.js. A function that throws returns a `Result`; messages are left out.
--   Bytes: the helpers of src/util/bytes.js. An octet is a native number, bytes are a list.
--   Reader: the class ByteReader of src/util/bytes.js, a buffer over a stream that arrives in chunks.
--   Its source is the list of the chunks to come, with any cut and with empty chunks. `_pull`, `_take`,
--   `readExactly`, `readSome`, `readUntil`, `readToEnd` and `unshift` are pull, take_buffered,
--   read_exactly, read_some, read_until, read_to_end (Reader.Drain) and unshift. An operation that
--   awaits the stream gives `none` only if its fuel runs out. The fuel is one more than the number of
--   chunks to come, and each round of the loop uses one up; for read_to_end it is one more than the
--   bytes to come.
--   Frames: src/http2/frames.js and src/http2/constants.js, the frames of HTTP/2, read from a Reader.
--   Hpack: src/http2/hpack.js and src/http2/huffman.js, the header compression of HTTP/2. A position in
--   a block is the list of the bytes from there on. Hpack holds the integers and the tables, Hpack.Blocks
--   the decoder, Hpack.Encoder the encoder, Hpack.Huffman the Huffman code with the trie that the source
--   builds when it is loaded. A block is decoded with its length as fuel, and an integer encoded with its value.
--   Connection: src/http2/connection.js, the class Http2Connection, with frames from Frames, blocks by
--   Hpack and codes from Errors. Connection.State holds its fields and those of its streams, and the
--   constructor. A promise is a Deferred. What the connection writes is a list of frames, whose bytes
--   `wire` gives. Connection.Teardown has `_die`, `close` and what ends a stream; Connection.Fields the
--   fields of requests and responses; Connection.Receiving `_dispatchFrame` and the handlers of frames;
--   Connection.Sending `request` and `_sendBody`, Connection.Consuming the body streams. What runs
--   between two awaits is one operation, and Connection.Running runs any sequence of them, so that every
--   interleaving of the peer, the senders, the consumers and the signals is covered.
--   Connection.Soundness is an invariant of the streams and Connection.Budget one of queues, windows and header blocks; both use
--   Connection.Preserving, what the frames without headers and data keep. Connection.Announced reads what
--   is written as the windows that the peer is told of, and Connection.Credit keeps the account of one
--   stream between what was announced and what came. Connection.Guarantees says what follows from them.
--   Connection.Framing and Connection.Uploading are about what is written, and
--   Connection.Refusals about errors. The fuel of `continuations` is the length of the header block.
--   Wire: src/tls/wire.js, the cursor and the builder of TLS messages (Wire.Cursor, Wire.Builder).
--   Pool: src/pool.js, the pool of idle connections. A connection is a number, and the list `shut` holds
--   those that the pool closed. A key is any string.
--   Tickets: src/tls/tickets.js, the store of resumption tickets, with the clock an argument.
--   Identity: src/trust/name.js, the match of a certificate with the host that was asked for.
--   Der: src/trust/der.js, the reader of DER elements. An offset into the bytes is a number, and what is
--   read of a header is the list of the bytes from an offset on. Der.Values has the readers of values and
--   ecdsaDerToRaw, Der.Times those of times, and Der.Encoding the distinguished encoding that the readers
--   are held against. The fuel of children is the length of the content, and an element takes some of it.
--   Http1: src/http1, the messages of HTTP/1.1 over a Reader. Http1.Request has serializeRequestHead,
--   Http1.Fields the lines of fields, Http1.Response readResponseHead and bodyFraming, Http1.Chunked
--   decodeChunked and Http1.Bodies the other bodies. A stream is the state of its source with the events that a pull gives. Each line that is read
--   costs a byte of its budget, which is the fuel; the loop of a chunked pull has three rounds at most
--   and is written out.
--   Socks5: src/proxy/socks5.js, the negotiation with a proxy over a Reader, with the list of what has been
--   written, and Socks5.Addresses the addresses. Its reads have the fuel of readExactly.
--   Headers: src/client/header-order.js, the header list that keeps its order.
--   Grease: src/tls/grease.js, the reserved values of TLS, the seeded source of them and the shuffle of
--   extensions. The type of an extension is a parameter.
--   Prelude: the names that the other modules share. Examples: runs on concrete data.
--
-- TextDecoder, TextEncoder, toLowerCase, trim, Date.UTC and Headers are parameters of the definitions that use
-- them, and nothing is assumed of them.
--
-- Not modelled: the drivers of connections and handshakes, the key schedule and the record layer of TLS,
-- certificates beyond their names and the DER reader, OCSP, HTTP proxies, cookies and redirects; the
-- platform's streams, timers and cryptography, which those parts call; vendored code; and the measurement
-- tools. Of an HTTP/2 connection, a write that fails is modelled for bodies only.
pub mod Prelude
pub mod Errors
pub mod Bytes
pub mod Reader
pub mod Pool
pub mod Wire
pub mod Frames
pub mod Hpack
pub mod Connection
pub mod Der
pub mod Http1
pub mod Socks5
pub mod Tickets
pub mod Identity
pub mod Headers
pub mod Grease
pub mod Examples
