-- ===== src/Hub.antt =====
-- components/dspi/dspi.h and dspi.cpp: the hub.
pub mod Transaction
pub mod Queue
pub mod State
pub mod Sync
pub mod Wrap
pub mod Requests
pub mod Control
pub mod Rta
pub mod RtaReplies
pub mod Presets
pub mod Readback
pub mod Sources
pub mod Configure
pub mod Probe
pub mod Transport
pub mod Receive
pub mod Loop
pub mod Dump
pub mod Link
pub mod Refresh
pub mod Invariant
pub mod Progress
pub mod Told
pub mod Live
pub mod Update
pub mod Shown
pub mod Reach
