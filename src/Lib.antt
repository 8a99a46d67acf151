-- ===== src/Lib.antt =====
-- nanofish: the HTTP client and server library as definitions, and theorems on them.
--
-- The program. A client builds a request (src/codec.rs, build_req), writes it to a stream, reads the
-- response into a buffer of its caller (src/client/io.rs, read_response), decodes a chunked body in
-- place (dechunk) and parses the response (parse_resp). A server reads a request from a stream
-- (src/server/io.rs, read_request), parses it (src/request.rs), asks a handler (src/handler.rs) and
-- writes its response (src/response.rs, build_bytes). Both meet only in the bytes on the stream. On
-- embassy, src/client/embassy.rs resolves the host, connects and runs the client on the socket, over
-- TLS for https, and src/server/embassy.rs accepts connections one after the other, with a timeout
-- for the handler; src/client/tls.rs runs the client over TLS on a stream of its caller.
--
-- The files.
--   Prelude, Result, Text, Heapless, Io: shared names and lemmas; the errors of src/error.rs and
--     results with a panic; the functions of the standard library on text that the source calls, on
--     the UTF-8 bytes of the text; the containers of the crate heapless as a parameter with laws;
--     calls on the world outside, and a stream as a parameter with one law.
--   Header, Protocol, Method, StatusCode, Options: src/header.rs, src/protocol.rs, src/method.rs,
--     src/status_code.rs, src/options.rs. The methods' names are read by one function for both of the
--     source's implementations, which have the same arms.
--   Response, Response/Write, Response/Builder: src/response.rs; the writers take and return the
--     buffer that the source passes by reference.
--   Codec: src/codec.rs, in Framing (complete, declares_length, content_length, chunked), Build
--     (build_req), Dechunk (dechunk) and Parse (parse_resp, parse_body). Codec/Dechunk/Decode is the
--     decoding as a function of the bytes, which the in-place loop is compared with.
--   Request: src/request.rs; Request/Decode is percent_decode.
--   Client: src/client/io.rs; Server: src/server/io.rs; Handler: SimpleHandler of src/handler.rs.
--   Tls: src/client/tls.rs; Tls.antt is the crate embedded-tls as a parameter, Tls/Provider the provider
--     of a verified handshake, Tls/Client the client.
--   Embassy: the network stack as a parameter; Embassy/Client is src/client/embassy.rs, with Https for
--     make_https_request, Request for request and the methods by name, and Embassy/Rng for tls_seed and
--     XorShift32Rng; Embassy/Server is src/server/embassy.rs. Embassy/Trace makes a network keep a log
--     of its calls, which the protocols of Client/Connecting and Server/Order are about.
--   Client/Frame, Server/Frame, Io/Keeps: what the calls on a stream leave true, a request and a
--     connection leave true.
--   Client/Framed, Server/Framed, Server/Arrive: how a whole message is told from its beginnings,
--     whatever pieces a stream brings it in.
--   Result/Ends, Io/Ends: results and calls that end, and chains of them; the files Ends of the
--     components show it of their functions.
--   Smoltcp: the polls of src/smoltcp.rs; Smoltcp/Runs is awaiting them, as a relation.
--   Wire: what each side writes against what the other side reads; Wire/Pieces and Wire/Handled are
--     a whole exchange, from the client's and from the server's side.
--   Tests: runs on concrete inputs, and each theorem at one.
--
-- The state. Text and slices are lists of bytes. A buffer of fixed capacity is the list of what it
-- holds and the capacity is a number of the model. The buffer that a response is read into is the
-- bytes read, in front of what was in the rest of the buffer. The largest usize is a parameter,
-- usize_max. The world that a stream and a handler act on is passed from call to call; awaiting is the
-- order of the calls, and a read that never returns is outside the model.
--
-- Fuel. The loop of dechunk reads past a line in each round, so one round more than there are bytes is
-- enough; the loops on a stream read a byte or use up a retry in each round, so the room of the buffer
-- and the retries are enough; QueryPairs::next passes a
-- separator and QueryValues::next a pair in each round. Where fuel runs out
-- the loops on streams and of dechunk return out_of_fuel, and the theorems below rule it out; the
-- iterators of the query are compared with descriptions that have no fuel.
--
-- The feature tls is an argument of the embassy client: with it there is an implementation of TLS.
-- The errors of embedded-tls, which the source only hands on, are numbers. The loop of serve has no end;
-- the model is its first rounds. A socket or a connection that is dropped at the end of its scope is
-- not a call of the model. The sizes of socket and TLS buffers are left to the parameters.
--
-- Not modelled: logging in src/fmt.rs; the aliases that fix the sizes of buffers; the constants of
-- src/header.rs that nothing uses; the implementations of the network stack, the timer and TLS.
pub mod Prelude
pub mod Result
pub mod Text
pub mod Heapless
pub mod Header
pub mod Protocol
pub mod Method
pub mod StatusCode
pub mod Options
pub mod Response
pub mod Codec
pub mod Wire
pub mod Request
pub mod Io
pub mod Server
pub mod Client
pub mod Handler
pub mod Smoltcp
pub mod Tls
pub mod Embassy
pub mod Tests
