-- ===== src/Server.antt =====
-- `CSMPPServerImpl` of smppserver.cpp, with the user manager that it hands requests to.
pub mod State
pub mod Serving
pub mod Bound
mod Tests
