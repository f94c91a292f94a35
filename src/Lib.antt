-- ===== src/Lib.antt =====
-- rpckit: a JSON-RPC library over WebSockets. A service declares its operations; the runtime
-- serves an endpoint of it on a socket: it reads frames, admits calls within limits, hands them
-- to the server or to the subscriptions, and writes the answers. The server can call methods of
-- the connected client over the same socket.
--
-- Parts and files (paths are from the repository's root):
--
--   Json, Wire          decoded JSON; rpckit/envelopes.py, rpckit/request_metadata.py, and what
--                       rpckit/server.py reads off a raw message
--   Connection          rpckit/connection.py: close codes, rejections (Rejection), RpcLimits
--                       (Limits), RpcConnection with the request_close of its endpoint (Life)
--   Errors              rpckit/errors.py: RpcErrorBinding (Types), bind_contracts and contract_for
--                       (Bindings), error_declarations and merge_error_declarations (Declarations),
--                       rejecting_contracts and contract_rejections (Rejects)
--   Server              rpckit/server.py, rpckit/dispatch.py, RpcProtocol of rpckit/protocol.py:
--                       _rpc_error (Mapping), the method table (Protocol), parsing, execution and
--                       _dispatch_request (Dispatch), _run_bounded without middleware
--                       (Dispatch/Bounded), handle and
--                       handle_json (Dispatch/Batch)
--   Service             rpckit/service.py: path templates (Templates), _match and unquote
--                       (Matching), _validate_endpoint (Endpoints), socket, stream and raw_socket
--                       (Mounting), RpcService.match and serve (Routing), freeze (Freeze)
--   Dependencies        rpckit/dependencies.py: resolvers and scopes; injected_parameter with
--                       _split_parameters of rpckit/protocol.py (Parameters)
--   Drain               rpckit/drain.py as a state machine
--   Codegen             rpckit/codegen/names.py: the casing of names (Casing), the tree of
--                       namespaces (Tree), api_view and event_view (View), client_view with
--                       _merge_nodes (Merge), whose fuel is the height of the trees
--   Client              rpckit/connected_client.py: RpcConnectedClient as a state machine, and the
--                       reading of its responses (Errors)
--   Middleware          rpckit/middleware.py: _middleware_scope
--   Subscriptions       rpckit/subscriptions.py: SubscriptionSession as a state machine
--   Streams             rpckit/streams.py and the reader of _run_stream_endpoint
--   Sockets             rpckit/raw_sockets.py with the reader of _run_raw_socket (Raw), and the close
--                       that a failure asks for: close_failure, close_stream_error, _rejection,
--                       _leaf_exceptions
--   Runtime             rpckit/runtime.py, _run_rpc_endpoint: its state and _PendingRequests (State),
--                       cancel_request and $/ping (Control), reader (Reader), invoke_one, call_done
--                       and invocation_done (Tasks), collect_one and invoke (Replies)
--
-- Interaction: Runtime/Reader hands a message first to Client.resolve, then to Runtime/Control,
-- and makes a call of what is left; Runtime/Tasks.route says which part of the server answers a
-- call; Server/Dispatch answers it; Runtime/Replies puts the answers of a frame into one message.
-- Connection/Life holds the close state that all of them write; Drain stops the connections of
-- sessions that are left. Service/Routing chooses the endpoint of a handshake among those that
-- Service/Mounting accepted.
--
-- Exceptions are values: a Python class is known by a number and an exception carries its method
-- resolution order. A function that may raise returns a Result or an Option. Object identities
-- (reservations, tasks, bindings) are numbers. The event loop is explicit: a state and a list of
-- events, one for each piece of code that runs without an await, in any order; theorems on runs
-- quantify over all such lists. Times are ticks.
--
-- Parameters of the definitions stand for code that is not in the repository: json.loads, UTF-8
-- lengths, encoding and decoding, the size of encoded metadata, Pydantic validation, the
-- resolver, the user's functions and error mappers. A request id is made from its number by a
-- function of which only injectivity is assumed. Only the merge of the trees (Codegen/Merge) runs
-- on fuel, the height of the trees, which is proved to be enough; all other recursion is
-- structural.
--
-- Texts that are only compared are native strings; paths and operation names, which the code
-- takes apart, are lists of code points. Regular expressions of the source are functions with the
-- order of attempts of Python's re.
--
-- Not modelled: serialisation, logging, telemetry, the emitters of the code generators, schema
-- export, the framework integrations, and the collection of declarations from decorated
-- functions.
pub mod Prelude
pub mod Json
pub mod Wire
pub mod Connection
pub mod Errors
pub mod Server
pub mod Service
pub mod Dependencies
pub mod Drain
pub mod Codegen
pub mod Client
pub mod Middleware
pub mod Subscriptions
pub mod Streams
pub mod Sockets
pub mod Runtime
