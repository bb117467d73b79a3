-- ===== src/Wire.antt =====
-- The octet writer and reader that the wire codecs of the convergence layers share: the static
-- functions at the head of CLA/tcpv4/src/tcpv4msg.c, which CLA/quic/src/quicmsg.c repeats word
-- for word, and the shape of their decoders.
pub mod Size
pub mod Octets
pub mod Pointer
pub mod Writer
pub mod Reader
pub mod Framed
