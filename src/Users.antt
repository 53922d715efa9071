-- ===== src/Users.antt =====
-- The user manager: smppusersmanager.cpp.
pub mod Address
pub mod Clients
pub mod Lookup
pub mod Requests
pub mod Manager
pub mod Ranges
pub mod Effects
pub mod States
pub mod Delivery
pub mod Sending
pub mod KeepAlive
mod Tests
