-- ===== src/Protocol.antt =====
-- components/dspi/protocol.h: the constants of the wire protocol, and its payloads.
pub mod Wire
pub mod Opcode
pub mod Toggle
pub mod Preset
pub mod Rta
pub mod Notify
