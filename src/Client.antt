-- ===== src/Client.antt =====
-- `CSMPPClient` of smppclient.cpp: its session with a server, the messages that it sends and the ones
-- that it receives.
pub mod Delivered
pub mod Attempts
pub mod Link
pub mod Message
pub mod Messages
pub mod Pieces
pub mod Plan
pub mod Retries
pub mod Segments
pub mod Sending
pub mod Incoming
pub mod Session
pub mod Sessions
pub mod Settings
pub mod Sockets
mod Tests
