-- ===== src/Lib.antt =====
-- The Go implementation of JSON-RPC 3.0 (go/jsonrpc3): requests and responses over any transport,
-- objects that are passed by reference, and batches whose requests may refer to the results of
-- earlier ones.
--
-- The parts, and how they meet. A peer reads message sets and queues message sets. A request goes
-- to the handler, which finds the object in the session by the request's reference (or the root
-- object, or the protocol methods under `$rpc`), calls it, and walks the result: each object in it
-- is registered in the session and replaced by a reference. A batch is handled request by request,
-- and a batch-local reference (`\0`, `\1`) is replaced by the reference in an earlier response. A
-- response goes to the channel of the call that waits for its ID. Over HTTP a client posts each
-- message set and the server handles it in the session that the request names; the reply carries
-- the response, or a stream of events.
--
-- The files, and the code that they model:
--   Base, Base/*     strings as lists of bytes, maps as association lists, decimal printing, lists
--   Any, Any/*       Go values with what reflection sees of them; reflect.DeepEqual
--   Message/Data, Errors, Convert   go/jsonrpc3/jsonrpc3.go: Request, Response, Message, MessageSet,
--                    ToRequest, ToResponse, ToBatch, ToBatchResponse, ToMessageSet, the errors
--   Message/Compact  go/jsonrpc3/cbor_compact.go
--   Mime             go/jsonrpc3/mimetype.go, and GetCodec of go/jsonrpc3/encoding.go
--   Session          go/jsonrpc3/session.go: the two tables of references and their operations
--   Walk             go/jsonrpc3/refwalk.go: processResult, walkValue, walkSlice, walkMap, walkStruct
--   Env              what the code is given: the application's objects, the codecs, printed times
--   Protocol         go/jsonrpc3/protocol.go: CallMethod and the methods under `$rpc`
--   Handler          go/jsonrpc3/handler.go: HandleRequest, HandleBatch
--   Handler/BatchRef go/jsonrpc3/handler.go: parseBatchLocalRef, resolveBatchLocalRef
--   Peer, Peer/Calling, Peer/Reading   go/jsonrpc3/peer.go: the peer and Close, Call, the read loop
--   Peer/Sending     go/jsonrpc3/peer.go: Notify, CallBatch; Peer/Numbering: the IDs of its calls
--   MethodMap        go/jsonrpc3/helpers.go
--   Batch            go/jsonrpc3/batch.go: BatchBuilder, BatchResults, ExecuteBatch
--   Framing          go/jsonrpc3/webtransport_framing.go
--   Enhanced         go/jsonrpc3/enhanced.go: IsEnhancedType, DecodeEnhancedType
--   Value, Natives   go/jsonrpc3/jsonrpc3.go: Value and its accessors
--   Http             what both sides of HTTP share: requests, responses, the codecs of message sets
--   Http/Server, Serving   go/jsonrpc3/http_server.go: the table of sessions, ServeHTTP and below
--   Http/ClientRefs  go/jsonrpc3/http_server.go: scanForClientRefs
--   Http/EventStream go/jsonrpc3/http_client.go: the scanner of handleSSEResponse
--   Http/Client, Calls, Batches   go/jsonrpc3/http_client.go: the session of a client, Call, Notify,
--                    CallBatch
--   Http/EndToEnd    a client whose network is the server
--   Socket, Socket/Incoming   go/jsonrpc3/websocket_client.go: a peer whose queue is encoded
--   Socket/Server    go/jsonrpc3/websocket_server.go; Socket/Exchange joins it with a client
--   Codecs           go/jsonrpc3/encoding.go: MarshalMessages, UnmarshalMessages
--   Stream           the write loops and CallBatch of go/jsonrpc3/http2_client.go, http2_server.go,
--                    webtransport_client.go and webtransport_server.go, and that of peer.go
--   Stream/Http2Client, WebTransport, WebTransportClient   the other methods of those connections
--   Stream/Writing   write loops, and Decode of the decoders of go/jsonrpc3/encoding.go at the other end
--   Stream/Ends, Exchange   two ends of a WebTransport stream, and a call from one to the other
--   Http2, Http2/Server, Serving   go/jsonrpc3/http2_server.go: the sessions and connections of
--                    HTTP2Server, its operations, ServeHTTP
--   Http2/Conn       go/jsonrpc3/http2_server.go: the methods of HTTP2Conn
--   Http2/Steps      the streams of that server, interleaved
--   Shell            go/jsonrpc3/pkg/shell/parser.go
--   Auto             go/jsonrpc3/auto_client.go: Probe, Connect
--   Auto/Announcing  parseAltSvc of go/jsonrpc3/auto_client.go, and the header of auto_server.go
--   Samples, */Tests a small application, and the theorems at concrete inputs
-- The other modules hold proofs, and are named for what they prove.
--
-- How state is modelled. A session, a peer and the application's state (`World`) are values that
-- each operation takes and returns. A map is an association list in which a key stands once; its
-- order stands for the order in which Go ranges over the map. Objects are numbers, so that two
-- references to one object are seen; so are the infos of remote references, whose contents are a
-- function of their numbers in the session, and which two references may share. Calls of `Dispose` and `Close` are returned as a list, in
-- order. Time is a number that the operations are given. A panic is `none` or an outcome of its own.
-- The halves of `Call` and of `CallBatch` are two steps, between which any other steps may stand;
-- where a `select` has several cases ready, `Wakes` allows each of them. Where a send races with
-- the closing of the peer, the model takes the closing: a closed peer queues nothing.
--
-- Bounds. The counters of references wrap at 2^64, those of connections being negative from 2^63 on, and so does the index of a batch-local
-- reference, which is negative from 2^63 on; a frame's length wraps at 2^32. Decimal printing
-- recurses on fuel, one more than the number, which is enough since each digit divides it by ten.
--
-- A request over HTTP/1 is one step at one time, with the ID of the session that it may make as a
-- parameter; requests in one session at the same time are left out. The HTTP/2 server is a step
-- relation on its table, its entries and its connections: a stream is two steps, before and behind the
-- locks that `ServeHTTP` lets go in between, and a `Close` that an operation asks for is a step of its
-- own. What a connection does between the steps of the server changes its calls, its queue and its
-- session in any way, but does not close it.
--
-- Not modelled: the encoders and decoders of encoding/json and fxamacker/cbor (parameters of `Env`,
-- `Wire` and `ValueCodecs`), locks, contexts and the timer of a call beyond
-- its possible end, the libraries below the transports (golang.org/x/net/http2, webtransport-go,
-- gorilla/websocket, TLS) with their dialling and listening, the interactive part of the shell and the
-- command-line tool.
pub mod Base
pub mod Any
pub mod Message
pub mod Mime
pub mod Session
pub mod Walk
pub mod Env
pub mod Protocol
pub mod Handler
pub mod Peer
pub mod Batch
pub mod Framing
pub mod Samples
pub mod MethodMap
pub mod Http
pub mod Stream
pub mod Http2
pub mod Codecs
pub mod Enhanced
pub mod Auto
pub mod Shell
pub mod Socket
pub mod Value
