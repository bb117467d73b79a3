-- ===== src/Tcpv4/Rx.antt =====
-- The receiver thread of an established session: CLA/tcpv4/src/tcpv4rx.c.
pub mod Conn
pub mod Segment
pub mod Loop
mod Keeps
mod Segments
mod Loops
mod Outcome
mod Returns
mod Inner
pub mod Sizes
mod Bounds
mod Terminates
mod Ending
pub mod Header
pub mod Welcome
pub mod Reassembly
pub mod Accepted
mod Tests
