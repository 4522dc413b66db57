-- ===== src/Lib.antt =====
-- eswim: a SWIM membership server.
--
-- A server keeps a list of the members of its cluster, probes one of them in each protocol period, and
-- passes on what it hears about them. The program's parts, and the files that model them:
-- - Fsm: internal/fsm/fsm.go and fsm_def.go, the machine that every decoder is. A machine is a record
--   of its fields (Fsm), a definition the constants and the feed function (Def); Feed is feed, and
--   run feeds a list of bytes up to the first value.
-- - Proto/Ip, Proto/Node, Proto/Bytes, Proto/Error: internal/proto/base.go, node.go, writer.go and
--   error.go, the addresses, the nodes, the byte order and the errors.
-- - Proto/Event and Proto/Event/*Decoder: internal/proto/event_*.go, the seven kinds of events, each
--   with its bytes and its decoder. Proto/Event/Setters: FromNode and SetSource. Proto/EventDecoder:
--   internal/proto/event.go, the header of an event, which chooses the decoder of its payload.
-- - Proto/Invalidation: internal/proto/invalidation.go, which event overrides which.
-- - Proto/NodeDecoder: internal/proto/node.go, the bytes of a node and their decoder. Proto/NetIp:
--   IPFromAddr, IPFromNetIP and internal/iputil/ip_list.go's ConvertNetIP.
-- - Proto/Message and Proto/Message/*Decoder: internal/proto/message_*.go, the messages, their sizes, bytes
--   and decoders. Fsm/Repeated and Fsm/Nested are what the decoders of counted and of nested parts share.
-- - Proto/Header, Proto/Packet, Proto/TcpPacket: internal/proto/header.go, packet.go and tcp_packet.go, with
--   EncPkt (enc_pkt), ParsePacket (parse_packet) and EncTCPPkt of base.go. Proto/Packet/RoundTrip,
--   Rejects and Size show what is read back, what is refused and how long a packet is. There the bytes that
--   Encode writes are a list; Proto/Writer and Proto/Writer/Encoders are writer.go and the Encode methods
--   as they write into a buffer.
-- - Core/Ascon: internal/core/ascon.go, over the cipher as a parameter.
-- - Core/NodeList: internal/core/node_list.go, the members in three maps. Core/NodeList/View is the
--   abstract list, a member for each hash, and Core/NodeList/Refinement, Expiry and Iteration show the
--   operations against it.
-- - Core/NodeManager: internal/core/node_manager.go, the members with the order of the pings.
-- - Core/GossipManager: internal/core/gossip_manager.go, the queue of the events to pass on.
-- - Core/RunLoop: internal/core/runloop.go, the protocol period, over a delegate that is a record of
--   operations on a state of its own. Core/RunLoop/Adaptive adds what adaptive pings measure.
-- - Core/SyncManager: internal/core/sync_manager.go, the full syncs and bootstraps, over such a delegate too.
-- - Server: swim_server.go, the own incarnation, the events of a Ping, and what a failed probe and
--   the expiry of a suspicion do. Server/Events has what the events make of the members,
--   Server/Messages the Ping and Pong cases, with what a Ping does to the members in Pings,
--   Server/Transport the sealing of what goes over the network, Server/Datagrams the handlers of datagrams and the indirect pings, Server/Syncs
--   HandleTCPPacket and the server as the delegate of the sync manager, Server/FullSync the choice
--   of whom to sync with, and Server/Loop the server as the delegate of the run loop, whose periods
--   Server/Loop/Turns follows. Server/Bootstrapping is runBootstrap as a step relation, interleaved
--   with the handlers. Server/Life is a server over its whole life: all its handlers and routines as
--   the steps of one relation.
-- - Wire/TcpControlClient: internal/wire/tcp_control_client.go, the frames of a TCP connection.
--   Wire/UdpControlServer, Wire/MulticastCommunicator and Wire/TcpControlServer: the routines that listen,
--   of udp_control_server.go, multicast_listener.go and tcp_control_server.go, as step relations with
--   Shutdown in between; reading, handling what was read, and the two halves of Shutdown are steps of
--   their own.
-- - Options: options.go and server.go, the defaults, the two servers and the list of the known nodes.
-- - Tests: the theorems at concrete inputs.
--
-- An operation that changes an object returns the new record. Methods are taken one at a time, so the
-- locks are left out. A Go map is an association list; the order in which Go visits its keys, and the
-- order into which rand.Shuffle and slices.SortFunc bring a list, are parameters that may be any
-- rearrangement. Numbers of uint8, uint16 and uint32 are natural numbers with the wrap-around written
-- out where the code can reach it. No definition takes fuel: each loop is recursion on a list or on a
-- number that the code counts down.
--
-- Not modelled: the sockets, whose reads and writes are lists of bytes, or steps that may happen; the text
-- of addresses and the options of sockets; the cipher and the t-digest, libraries that stand as
-- parameters; the length of tickers and timers, which may fire at any time; the command line, logging,
-- wrappers of the standard library (internal/containers) and generated names.
pub mod Base
pub mod Fsm
pub mod Proto
pub mod Core
pub mod Server
pub mod Wire
pub mod Options
pub mod Tests
