-- ===== src/Tests.antt =====
-- Concrete inputs: runs of the models, and the theorems applied to them.
pub mod Packets
pub mod System
mod Filter
mod Policy
mod Vlan
mod Report
pub mod User
pub mod Loader
mod Main
mod Start
pub mod Host
mod Rounds
mod Wire
mod TraceRead
mod Pinned
