-- ===== src/Codec.antt =====
-- The SMPP 3.4 codec of libsmpp34: smpp34_pack.c and smpp34_unpack.c, over the frames of def_frame
-- and the lists of def_list.
pub mod TlvId
pub mod CommandId
pub mod CommandStatus
pub mod Checks
pub mod Rules
pub mod Frames
pub mod Octets
pub mod Fields
pub mod Pdu
pub mod RoundTrip
pub mod Room
pub mod Assembled
pub mod Limits
pub mod Accepted
pub mod Fitting
pub mod Sound
pub mod Monotone
mod Tests
