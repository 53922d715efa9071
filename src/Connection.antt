-- ===== src/Connection.antt =====
-- `CSMPPConnection` of smppconnection.cpp: sequence numbers, and the buffer of `SendPDU`.
pub mod Calls
pub mod Pending
pub mod Registered
pub mod Closed
pub mod NetworkError
pub mod Reading
pub mod Sequence
pub mod SendPdu
mod Tests
