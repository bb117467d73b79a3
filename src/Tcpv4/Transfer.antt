-- ===== src/Tcpv4/Transfer.antt =====
-- A transfer from one end to the other: sendTransfer of CLA/tcpv4/src/tcpv4tx.c and, at the other end,
-- tcpv4MessageLoop of CLA/tcpv4/src/tcpv4rx.c.
mod Runs
mod Written
mod Delivered
mod Tests
