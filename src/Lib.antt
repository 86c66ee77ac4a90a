-- ===== src/Lib.antt =====
-- A model of Santiago, a C++ library for FastCGI application servers over boost::asio, with theorems
-- about it. Paths below are from the root of the repository.
--
-- The parts, from the wire upwards, and the files that model them:
--   - Santiago/fastcgi_devkit/fastcgi.h, Santiago/Fastcgi/Common.h: Protocol.
--   - Santiago/Fastcgi/PairParseFunctions.h: Pairs. ParsePairs is parse_pairs, its loop parse_loop;
--     WritePair is write_pair.
--   - Santiago/Fastcgi/PacketSocket.h: PacketSocket for the state, writePacket (write_packet), close and
--     flushProtocolSocket; PacketSocket/Read for handleRead (handle_read), over a record Host that tells
--     where the owner keeps the socket and what its newPacketCallbackFn does. PacketSocket/Peer is no part of the
--     program: a reader with a packet socket of its own that records what it is handed.
--   - Santiago/Fastcgi/RecordSocket.h: RecordSocket. sendReply is send_reply, handleNewPacket is
--     handle_new_packet, over a record Callbacks with what the constructor is given.
--   - Santiago/Fastcgi/RequestData.h: RequestData.
--   - Santiago/Fastcgi/ConnectionData.h: ConnectionData. Each operation returns the one callback that it
--     makes, as a Notice.
--   - Santiago/Fastcgi/Connection.h: Connection, and Strand for the tasks that are posted. It fills
--     Callbacks and Host, and makes the callbacks of ConnectionData. An Event is a finished read, a task
--     of the strand or a posted reply; Connection.Life.Reach holds the histories of events.
--     Connection/Service follows a request from the bytes of a read to the bytes of its reply.
--   - Santiago/Fastcgi/Request.h: Request, over the connections that are alive.
--   - Santiago/Fastcgi/Acceptor.h: Acceptor. Its histories are of accepts, tasks of its strand and events
--     of its connections, whose calls reach it when the handler returns.
--   - Santiago/LocalEndpoint.h: LocalEndpoint. The model of the acceptor does not read it.
--   - Santiago/Server/RequestHandler.h: RequestHandler, over the strands that init makes. A callback of
--     the user is a number that the user gives it.
--   - Santiago/Server/Server.h: Server for its own state, with any requests that an acceptor may hand it;
--     Application for a server with its acceptor, whose _newRequestCallbackFn is handleNewRequest.
--   - Santiago/Server/Request.h: Application, with the Fastcgi request that each Server::Request owns.
--     An ApplicationEvent is an accept, an event of a connection, a task of the strand of the acceptor,
--     or a call of the user; Application.ApplicationReach holds the histories. The strand of the acceptor
--     is two queues, its own tasks and the deletions of handlers, and which of them runs next is open.
-- Prelude has the shared names and lemmas, Exec the actions (an object's state, an exception, or an
-- end without a return, as by a failed BOOST_ASSERT), OrderedMap std::map and Text std::string. Tests
-- has concrete runs.
--
-- How the code is read:
--   - A byte is a number below 256 and a buffer is a list of bytes. The narrowing of the source is
--     written out: the bytes of a header, the length argument of writePacket (2 ^ 32), the size given to
--     ParsePairs (2 ^ 32), the counter of connection ids (2 ^ 32). Sizes of buffers (size_t) are not
--     bounded.
--   - Handlers of one strand run one after another, so a handler is one action. A RequestDataPtr and a
--     RequestHandlerPtr are addresses of a store, and a weak pointer locks while a shared one is left.
--   - The network is the choice of the environment: which writes report an error, how bytes are cut into
--     reads, and what is unread at the end. What a failed write may have put on the wire is not recorded.
--     cancel() of a boost socket is taken not to throw, since close calls it on an open socket.
--   - The destructor of a Fastcgi::Request is destroy_amid, with what other threads do between its isValid
--     and its cancel. The histories of Application are of whole handlers, so nothing happens there.
--   - A thread of the server is in io_service::run until the io_service is stopped, and leaves it at once
--     afterwards. run and join are those of boost as documented.
--   - Loops: parse_loop has one round of fuel for each byte and one more, since a round moves the index;
--     write_loop has one more than the bytes of the content, since a round but the last writes 0xffff;
--     read_loop has one more than the bytes of the buffer, since a round takes a header.
--
-- What is not modelled: debug output; the boost objects behind the calls; accesses to the map of the
-- acceptor from several strands at once; tasks of a connection that the acceptor has released; the user's
-- request handlers, of which route and the calls on requests are open; Server::Request::getID, which does
-- not compile when it is used; the destructors of the acceptor and of the packet socket, which only
-- close their boost objects; the programs of test/.
pub mod Prelude
pub mod Exec
pub mod Protocol
pub mod OrderedMap
pub mod Text
pub mod Pairs
pub mod Strand
pub mod PacketSocket
pub mod RequestData
pub mod ConnectionData
pub mod RecordSocket
pub mod Connection
pub mod Request
pub mod Acceptor
pub mod LocalEndpoint
pub mod RequestHandler
pub mod Server
pub mod Application
pub mod Tests
