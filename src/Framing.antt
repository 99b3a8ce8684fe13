-- ===== src/Framing.antt =====
-- components/dspi/framing.h: frames built for the device, and its frames parsed byte by byte.
pub mod Build
pub mod Parser
pub mod Receive
pub mod Resync
