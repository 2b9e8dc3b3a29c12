-- ===== src/Lib.antt =====
-- easycall, a micro-service framework in Go: clients find the nodes of a service in etcd, choose one
-- by load balancing, and exchange framed packages with it over pooled TCP connections.
--
-- The parts and the files that model them:
--   Base: what all share. Bytes and Go strings are lists of numbers, maps association lists, signed
--     integers are ℤ with wrap-around (`wrap`), and a call ends in an `Outcome`: a value, an error or
--     a panic. int is taken to have 64 bits.
--   Head, Package: easy_package.go. The JSON and msgpack libraries are a parameter, two codecs, with
--     `IsCodec` as what is relied on. Both encoders are `encode_parts` under the test on the format;
--     the decoders share `split`. A slice has no capacity beyond its length here.
--   Connection: easy_connection.go. The loop of `Read` is `read_loop` over `read_turn`, on the list
--     of segments that arrive; fuel bounds the rounds, and each round takes bytes or
--     stops, so that fuel above the number of bytes and segments is enough. Connection/Writes
--     has `Send`, `Close`, the loop of `Write` and the deferred call of `Read`.
--   NodeManager: node_manager.go. The clock, the answer of etcd and the JSON decoder are arguments.
--     The goroutine that watches is left out: it writes the list without the mutex, which is a race.
--   LoadBalancer: load_balancer.go. What the random generator returns is an argument, `draw`.
--   CircuitBreaker: circuit_breaker.go. `CbCall` is `cb_call` over `call_info`; what stands under the
--     lock of a name is `admit`, in the source's stages. float32 is a parameter.
--   SessionManager: session_manager.go, and `Process` of service_client.go. Sessions are objects in a
--     list, and a pointer is an index; the two locked sections of `DestorySessionAndRespPkg` are two
--     steps, and `Step` lets them happen in any order.
--   Pool: pool.go. A `Round` is what the factory, the clock and the resource answer in one round of
--     the loop of `Acquire`, and the list of rounds bounds the loop, which a round ends whose
--     resource is open and fresh. Calls do not overlap there; Pool/Interleaved has several
--     goroutines at once, each at a place in the code, whose accesses come in any order.
--   Replies: error.go, and the end of `Request` in service_client.go and easy_client.go.
--   Middleware: the chains of service_context.go, gateway_handler.go, http_handler.go, and the end
--     that service_handler.go sets. A pointer is an index into `heap`; the fuel of `call` bounds the
--     length of the chain, and fuel above the number of objects is enough.
--   Service: service_handler.go, request.go, response.go. The methods of the service are a parameter.
--   ServiceContext: service_context.go. Each goroutine of `StartAndWait` has a place, and a turn is one
--     of its calls; `Reach` lets the turns come in any order, until one of them panics. A whole
--     `Register` is one turn. After it the turns are the ticks of the goroutine that keeps the lease
--     alive, which register anew after an error; and a lease may run out at any time.
--   ServiceClient: `RequestAsyncWithHead` of service_client.go, in stages that follow the source from
--     the test of the name to `Send`. Objects are held by index or address: the connections are
--     `conns`, and the counter of a node lives in the session manager, under the node's address.
--     `World` holds what is outside: the clock, etcd, the random generator, the factory.
--     ServiceClient/Requests and EasyClient/Requests have the calls that wait for the answer.
--   ClientHandler: client_handler.go. Rpc: a call from the client to the service and back.
--   EasyClient: easy_client.go, one service client for each name. Gateway: gateway_handler.go and
--     http_handler.go, and `ProxyMiddleware` of example/gateway.go over an `EasyClient`; Gateway/Http
--     has its `HttpProxyMiddleware`, over the list of calls of the response writer.
--   ApmMonitor: apm_monitor.go. A status is an object in `heap`. `Step` has each atomic operation of a
--     call and of a report, so that they may come in any order; the mean that a report writes was
--     read before, and may be any number there.
--   ServiceRegister: service_register.go. The client of etcd is the record `Etcd`, and `IsEtcd` is what
--     is relied on; ServiceRegister/Memory has an etcd that fulfils it.
--   Config: easy_config.go, the parser of a file (`load`) and the typed getters, which share
--     `get_parsed` and `parse_map`. A file is what can be read of it; floats and their parser are
--     parameters. Config/Remote has the configuration kept in etcd: its versions, its three files and
--     the ticks that look for a new version. Config/Struct has `GetConfig`: a struct is a list of
--     fields with kinds, without embedded structs, and the settings come in any order.
--
-- Not modelled: logging, sockets and their options, etcd itself, the goroutine pools, and the other
-- sample programs; server.go, http_server.go and gateway.go, which start servers; utils.go, which
-- asks the operating system.
pub mod ApmMonitor
pub mod Base
pub mod CircuitBreaker
pub mod ClientHandler
pub mod Config
pub mod Connection
pub mod EasyClient
pub mod Gateway
pub mod Head
pub mod LoadBalancer
pub mod Middleware
pub mod NodeManager
pub mod Package
pub mod Pool
pub mod Replies
pub mod Rpc
pub mod Service
pub mod ServiceClient
pub mod ServiceContext
pub mod ServiceRegister
pub mod SessionManager
