-- ===== src/Lib.antt =====
-- Convergence layers and tools for the ION implementation of Bundle Protocol 7.
--
-- The repository adds to ION programs that carry bundles: convergence layers under CLA/ (TCPCLv4 of
-- RFC 9174, QUICCL, mail, MQTT, MySQL, the ZCL radio layer) and applications under APP/ (bpsh, a
-- shell over bundles; bptun, an IP tunnel; bpcmd). A convergence layer keeps a session with a
-- neighbour and exchanges messages with it; a codec without state of its own turns the messages into
-- octets and back, and everything that arrives from a neighbour passes through it first.
--
-- The files and the code:
--   Prelude: tests, lists, signed integers and laws of the bit operations, which all others use.
--   Wire: the big-endian writer and reader with which both codecs are written, the static functions
--     wInit .. wBytes and rInit .. rBytes at the head of CLA/tcpv4/src/tcpv4msg.c, which
--     CLA/quic/src/quicmsg.c repeats. Wire/Writer and Wire/Reader hold the code; the modules below
--     them hold what a call promises (Appends, Encodes, Exact, Stable, Sound) and the rules by which
--     the promises of a sequence of calls follow. Wire/Framed is the shape of a decoder.
--   Tcpv4/Msg: the messages, encoders and decoders of CLA/tcpv4/src/tcpv4msg.c; tcpv4MsgEncodeXferAck
--     is encode_xfer_ack, and so on. Tcpv4/Msg/Types has the structs and codes of tcpv4msg.h,
--     Tcpv4/Msg/Layout what RFC 9174 lays down, Tcpv4/Msg/Codec the messages as one type,
--     with Tcpv4/Msg/Codec/Outgoing what the encoders are given: KEEPALIVE and NULL pointers too.
--   Tcpv4/Ext: the extension items of a transfer (tcpv4MsgNextExtItem, tcpv4MsgFindXferLength,
--     tcpv4MsgEncodeXferLengthExt).
--   Tcpv4/NodeId: the node IDs of CLA/tcpv4/src/tcpv4nodeid.c (readComponent, tcpv4NodeIdIpn,
--     tcpv4NodeIdIsSet, tcpv4NodeIdMatches,
--     tcpv4NodeIdIsWellFormed); the loop over components counts down from three.
--   Tcpv4/X509: the certificate decoding of CLA/tcpv4/src/tcpv4x509.c (derTlv,
--     tcpv4X509BundleEid, tcpv4X509IsNodeId, tcpv4X509HasExtension). View is a part of a buffer as an
--     offset and an end see it, Tlv and Found say what derTlv reads.
--   Tcpv4/Negotiate: the negotiation of a session, CLA/tcpv4/src/tcpv4negotiate.c. State has the fields
--     of Tcpv4Conn that it reads and writes, and the calls; what the TLS library says is a parameter,
--     World. Lasts, Calls, Secure and Established say what a success has established; Runs, Inits,
--     Ends and Peers run two ends against each other, each on the octets that the other has written.
--   Tcpv4/Tx: the two lists of transfers of a session, their window and the outcome of each, of
--     CLA/tcpv4/src/tcpv4tx.c (queueXfer, tcpv4TxFinished, tcpv4TxStop, tcpv4TxDrain and the two
--     halves of a round of tcpv4XmitThread, xmit_begin and xmit_end) with the locked parts of
--     handleXferAck and handleXferRefuse of tcpv4rx.c. What a thread does under one hold of txMutex is
--     one function, and Tcpv4/Tx/Reach has the interleavings of the threads as a step relation. An
--     object is known by its address, `self`, so that a pointer that a thread keeps past its hold
--     (`sending`) can be told from one that is freed.
--   Tcpv4/Tx/Send: sendSegments and sendTransfer of tcpv4tx.c, with the reads of the bundle, the
--     refusals of the peer and the results of the writes as parameters.
--   Tcpv4/Rx: the receiver thread of an established session, CLA/tcpv4/src/tcpv4rx.c. Tcpv4/Rx/Conn
--     is its state with the calls that read and write (those of tcpv4io.c that encode a message),
--     Tcpv4/Rx/Segment is handleXferSegment, Tcpv4/Rx/Loop the other handlers and tcpv4MessageLoop.
--     What the surroundings decide is a parameter, World: whether a write succeeds, memory is granted
--     and the delivery thread takes what it was left. The other modules there say what the steps keep
--     of the state (Keeps), how they end (Outcome, Ending), and what they do with the octets that a
--     peer lays down (Header, Accepted, Reassembly).
--   Tcpv4/Io: tcpv4ConnRecv of CLA/tcpv4/src/tcpv4io.c with its read-ahead buffer. The octets that a
--     read finds ready, and itcp_recv of ION, are parameters. The other modules read without it.
--   Tcpv4/Critical: the walks over extension items of tcpv4negotiate.c and tcpv4rx.c side by side.
--   Tcpv4/Transfer: both ends of a session together, the octets that sendTransfer writes being what
--     the peer's tcpv4MessageLoop reads.
--   Quic/Msg: the messages, encoders and decoders of CLA/quic/src/quicmsg.c, laid out like Tcpv4/Msg.
--   Bptun/Route: the route table of APP/bptun/src/bptun_route.c (addRoute, prefixMatches, packetDest,
--     bptunIsLinkLocal, bptunRouteLookup, bptunRouteTableFree), the array as the list of its used
--     elements, realloc as a parameter. Bptun/Route/Prefix compares prefixMatches with the bits of
--     the addresses, Bptun/Route/Lookup the lookup with longest-prefix match.
--   Bptun/Add: bptunRouteAdd, with inet_pton and strtol as parameters.
--
-- How the C is read: a pointer with a length is the list of the octets it points to, and `none` for
-- NULL; an encoder takes the size of the buffer and returns the C result with the octets written; a
-- decoder returns the C result and what it stored, `none` where it returns before it writes. Unsigned
-- arithmetic wraps (`% 2 ^ w`, and size_t in Wire/Size at 64 bits); the C results are 32-bit ints
-- (int_cast), so the theorems on them take buffers shorter than 2 ^ 31 octets. Loops are structural
-- recursion on the input; the walk over extension items runs on fuel, one more than the octets it is
-- given, and each round takes at least one octet, so the fuel is enough on every input. The message
-- loop has one more than the octets still to come, each round reading one at least; rxReserve's
-- doubling has 32, an int having no more bits; draining has the number of octets to drain, and so have
-- the two loops that write a bundle, the MTU being positive: the negotiation refuses a peer whose
-- Segment MRU is 0. The walk over the extensions of a certificate has one more than its octets, each
-- entry taking at least two, and the loops that read a number of octets have that number. The walks
-- over extension items give `none` where the fuel runs out, and found_or takes the result out of
-- them; Tcpv4/Rx/Inner is about the loops inside the handlers of tcpv4rx.c. The capacity of the route
-- table is a natural number, where the int of the C would overflow at 2 ^ 30 routes, and
-- tcpv4X509BundleEid is given a buffer that is not NULL.
--
-- Not modelled: sockets, TLS, terminals and child processes, and the libraries behind them; the
-- timers; the table of the sessions of TCPCLv4; the sessions of QUICCL; bpsh, the mail, MQTT, MySQL and ZCL layers.
pub mod Prelude
pub mod Wire
pub mod Tcpv4
pub mod Quic
pub mod Bptun
