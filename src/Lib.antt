-- ===== src/Lib.antt =====
-- kirdi, a VPN that carries IP packets over WebSocket: its protocol, its server and its client.
--
-- A client (src/client/client.cpp) connects to a server (src/server/server.cpp) over a WebSocket
-- transport (src/transport/ws_transport.cpp), signs in with an HMAC token (src/common/crypto.cpp),
-- is told its virtual address, and opens a TUN device; from then on IP packets go both ways, framed
-- as src/common/protocol.hpp says. The server has one session per client (src/server/session.cpp),
-- writes what authenticated clients send to its own TUN device, and routes what that device yields
-- by destination address.
--
-- Files, each with the code it is about:
--   Protocol: src/common/protocol.hpp. MsgType and PacketHeader are the types of the source, with a
--     constructor for the byte values that have no name; each function has its name there. Header is
--     about the five header bytes, Packet about whole packets.
--   Crypto: src/common/crypto.cpp, with OpenSSL's HMAC and RAND_bytes as parameters. Hex, Token and
--     Window are about hex text, the token's form and verify_auth_token.
--   Transport: dispatch_packet of src/transport/ws_transport.cpp; Dispatch is about it.
--     Transport.ServerSession is WsServerSession, whose fields are those of the record, with what the
--     stream and the executor were asked for: posted tasks, a write and a read under way, the
--     messages written. Its handlers are functions of that state. Order, Progress and Closing are
--     about the write queue. Transport.ClientTransport is WsClientTransport in the same way, and Queue
--     about its write queue. Mail is about the IP packets in
--     the messages of either, each Posting about what an operation does to them, and each Burst about
--     many messages at once.
--   Session: src/server/session.cpp. A Link is the ClientSession with its transport, and
--     handle_packet is the handler of all message types. Gate, Auth and Refusal are about what gets
--     past it, about the check of a request, and about the answers; Outgoing about what it sends.
--   Transport.PlainServerSession is WsPlainServerSession, and Transport.WsSession the interface of both
--     with the path between them.
--   Server: src/server/server.cpp. The record Server has the tables and counters of the class; each
--     handler, and each round of tun_read_loop, in Device, is a step. Boot is run up to the event loop.
--     Address, Invariant, Steps and Kept lead to History, whose steps are all the handlers in any
--     order; Routing is about the packets for clients, Tunnel, with Earned, about those from them,
--     Capacity about the addresses handed out, Outgoing about the packets of one session.
--   Client: src/client/client.cpp, with the handlers as steps; Messages has those of a connection and of
--     messages. Handshake and EndToEnd are about the two ends together, Carriage about the packets
--     between their devices, Outgoing about those of one client. Kept is about what the handlers are
--     made of; Invariant has the histories, which are the handlers in any order, and what it takes
--     for a property to hold in all of them; Reconnect and NoLoop are two such
--     properties. Attempt is about one connection, Stopping about the end, Routes and Dns about the
--     routing table and the resolver's file around a tunnel.
--   System: the client and the server together over the life of one connection: every step of either,
--     with the messages of each read by the other in the order of the stream. Holds is what each step
--     keeps, InOrder what follows for the packets. Upload and Download are about a burst of packets
--     in either direction while nothing fails.
--   Network: the shell commands of src/client/client.cpp, as texts; a Machine says how commands end,
--     RouteLaws, in Table, what they do to a routing table, with Deletions for which of the commands
--     that delete a route take effect, and ResolvLaws, in Resolv, what they do to the resolver's file. Guard is about the catch-all routes on macOS. Network.Firewall is
--     ensure_system_config of src/server/server.cpp; RuleLaws says what iptables does.
--   Tun: src/tun/tun_interface.hpp; Linux, MacOs and Windows are the classes of src/tun, whose kernel
--     is a record of answers, and Devices the factory. Lifecycle is about open and close on every
--     platform, Frames about the frames of macOS.
--   Config: src/common/config.hpp; Json, ServerJson and ClientJson: src/common/config.cpp; RoundTrip
--     is about them.
--   Logger: src/common/logger.hpp. Programs: ServerMain is src/server/main.cpp, ClientMain is
--     src/client/main.cpp, ClientOptions is about the client's command line, and Signals models the
--     signal handlers of both and the end of the client's program.
--   Json and Inet: the interfaces to the nlohmann JSON library and to the address functions, with the
--     documented behaviour that proofs rely on in JsonLaws and InetLaws. HmacWorks, in Crypto.Token,
--     says that HMAC-SHA256 gives 32 bytes.
--   Base: numbers, lists, maps and exceptions. Examples: each theorem with hypotheses at a concrete
--     input.
--
-- Integers are natural numbers, with the wrap-around of uint32_t and uint64_t written out. Exceptions
-- are results. The only loop without a bound in its data is that of verify_auth_token: it has fuel,
-- and its window of 30 seconds on each side needs 62 rounds, one for each second and the last test.
--
-- Not modelled: what is inside TLS contexts, sockets and the shell, so also the exceptions of
-- set_option and remote_endpoint when a connection is accepted; the calls of the logger; the usage
-- texts of the two programs; and more than 2 ^ 32 - 4 accepted connections, where the session counter
-- would wrap.
pub mod Base
pub mod Protocol
pub mod Crypto
pub mod System
pub mod Transport
pub mod Json
pub mod Session
pub mod Inet
pub mod Config
pub mod Logger
pub mod Tun
pub mod Network
pub mod Server
pub mod Client
pub mod Programs
pub mod Examples
