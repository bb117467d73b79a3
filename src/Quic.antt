-- ===== src/Quic.antt =====
-- The QUICCL convergence layer (CLA/quic/src).
pub mod Msg
mod Tests
