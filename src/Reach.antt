-- ===== src/Reach.antt =====
-- tools/nesrom/src/reach.rs: the trace from the entry points, and what is derived from it.
pub mod Maps
pub mod State
pub mod Record
pub mod Ranges
pub mod Closure
pub mod Targets
pub mod Replay
pub mod World
pub mod Effects
pub mod Flow
pub mod Drain
pub mod Resolve
pub mod Pass
pub mod Frame
pub mod Relation
pub mod Invariant
pub mod Stores
pub mod Handlers
pub mod Sound
pub mod Ends
pub mod Queues
pub mod Start
