-- ===== src/Tcpv4.antt =====
-- The TCPCLv4 convergence layer (CLA/tcpv4/src).
pub mod Msg
pub mod Ext
pub mod NodeId
pub mod X509
pub mod Io
pub mod Negotiate
pub mod Tx
pub mod Rx
mod Transfer
mod Critical
mod Tests
