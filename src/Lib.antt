-- ===== src/Lib.antt =====
-- SniTun: a TLS proxy without termination. A server accepts TLS connections, reads the server name of
-- the ClientHello, and sends each connection over a multiplexed, encrypted stream to the client that
-- is registered for the name. The files model the parts that decide what happens to bytes, messages,
-- channels and connections, and prove what makes each part correct.
--
-- The parts, and the files of the repository that they are about:
--   Exceptions      snitun/exceptions.py, and the exceptions of Python that the code raises or catches.
--                   A call that may raise returns a `Result`.
--   Bytes           bytes as lists of numbers below 256, big-endian numbers, UTF-8.
--   Dict            Python's dict, as an association list in the order of insertion.
--   IpAddress       snitun/utils/ipaddress.py; IpAddress.Parse is `ipaddress.ip_address` of the
--                   standard library, on text.
--   Message         snitun/multiplexer/message.py: the 32 bytes of a frame's header.
--   Crypto          snitun/multiplexer/crypto.py. The `cryptography` package is the parameter
--                   `Primitives`, what the code relies on of it are the `Laws` of Crypto.Units, and
--                   `os.urandom` is an argument of what calls it.
--   Queue           snitun/multiplexer/queue.py: Queue.Single is the queue of one channel, Queue.Multi
--                   the one that all channels share. A channel's object is a reference into a heap,
--                   since a suspended `put` keeps it; a `put` or `get` that waits is a task value.
--   Channel         snitun/multiplexer/channel.py: `MultiplexerChannel` with its two queues (`Link`);
--                   Channel.Reader is `ChannelFlowControlBase`.
--   Multiplexer     snitun/multiplexer/core.py: Frame is `_write_message` and the first half of
--                   `_read_message`, State the second half and the operations on channels, Endpoint
--                   both with the transport and the stream, with `ping` and `shutdown`, and Tasks the
--                   two tasks. Tasks.Conversation has two multiplexers, one at each end.
--   Transport       snitun/multiplexer/transport.py: `ChannelTransport`, for a protocol that is a
--                   parameter, and its task that reads (Transport.Reader).
--   Token           the tokens: snitun/utils/server.py, and `create_peer` of
--                   snitun/server/peer_manager.py. Fernet and JSON are parameters.
--   Challenge       the challenge of a client: `init_multiplexer_challenge` of snitun/server/peer.py, and
--                   `start` of snitun/client/client_peer.py; Challenge.Session is the rest of the latter.
--   Sni             snitun/server/sni.py: `parse_tls_sni` and `payload_reader`.
--   ProxyProtocol   snitun/server/proxy_protocol.py.
--   Dispatcher      snitun/server/run.py: `Connection`, and `_process`, `_strip_proxy_protocol` and the
--                   loop of `SniTunServerWorker`; Dispatcher.Listen is `create_listen_sockets`.
--   SingleServer    snitun/server/run.py: the handler of `SniTunServerSingle`.
--   PeerManager     snitun/server/peer_manager.py, and what it asks of snitun/server/peer.py.
--   SniListener     snitun/server/listener_sni.py: `SNIProxy.handle_connection` and `_proxy_peer`;
--                   SniListener.Proxy is `ProxyPeerHandler`, which moves the data.
--   PeerListener    snitun/server/listener_peer.py: `handle_connection`.
--   Connector       snitun/client/connector.py: `Connector`; Connector.Endpoint is
--                   `EndpointConnectorHandler`, Connector.Tls is `ConnectorHandler`.
--   AccessList      snitun/client/access_list.py, with the networks of Python's `ipaddress`.
--   Worker          snitun/server/worker.py: `_event_stream` and `is_responsible_peer`, fed with the
--                   callbacks of the PeerManager; Worker.Connections is the queue of connections that
--                   are handed over and what `run` makes of them, Worker.Reports the gauges.
--   RangedTimeout   snitun/utils/asyncio.py, `RangedTimeout`.
--   Examples        the theorems at concrete inputs.
--
-- How the parts interact: the thread of SniTunServerWorker feeds what a connection sent to
-- ProxyProtocol and then to Sni, and hands the socket to a worker. There a name finds a peer in the
-- PeerManager, whose Multiplexer opens a Channel. A channel writes to the queue that all channels
-- share, whose messages the multiplexer writes as frames through Crypto; the frames that it reads go to
-- the channels' own queues. On the server the channel is fed by SniListener.Proxy, on the client by a
-- Connector. A peer is made by PeerListener, from a Token and behind a Challenge.
--
-- Tasks: a coroutine that awaits is a step function from one `await` to the next, on a state that says
-- where it stands, and its theorems are about all lists of events: what it awaits comes, it is
-- cancelled, or other tasks change what it shares with them.
--
-- Bounds and fuel: the loops of Sni take fuel, and one more than the data's length is enough, since a
-- round moves the position by three at least (Sni.Total). The loop of ProxyProtocol takes 1501: a round
-- that goes on has read a byte, and the buffer ends at 1500 (ProxyProtocol.Stream). The loop that feeds a
-- protocol takes the data's length, since a round takes a byte (Transport.Feed), and the one of
-- SingleServer one more than the stream's, since a chunk is not empty (SingleServer.Dispatched). The
-- other loops end when their connection does: they take a list of rounds or of events, of any length.
-- Python's numbers are unbounded, and so are these; the header's fields and the AES-GCM counter have the
-- source's bounds.
--
-- Not modelled: the sockets and the event loop, the start and the end of the threads and the worker
-- processes, and the metrics collectors, which are input and output. What is awaited of them is an argument.
pub mod Prelude
pub mod Exceptions
pub mod Bytes
pub mod IpAddress
pub mod Message
pub mod AccessList
pub mod Connector
pub mod Crypto
pub mod Queue
pub mod Dict
pub mod Channel
pub mod Challenge
pub mod Multiplexer
pub mod Sni
pub mod Transport
pub mod ProxyProtocol
pub mod Dispatcher
pub mod Token
pub mod SingleServer
pub mod PeerManager
pub mod PeerListener
pub mod SniListener
pub mod RangedTimeout
pub mod Worker
pub mod Examples
