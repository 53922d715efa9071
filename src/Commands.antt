-- ===== src/Commands.antt =====
-- The commands of smppcommands.hpp: their texts and arrays, the optional parameters that they build,
-- and how they are packed and unpacked.
pub mod Arrays
pub mod Bind
pub mod Command
pub mod Destination
pub mod Multi
pub mod RoundTrip
pub mod Submit
mod Tests
pub mod Text
