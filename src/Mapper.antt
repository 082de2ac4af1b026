-- ===== src/Mapper.antt =====
-- service/mapper: the state machine that indexes one finalized block after another.
pub mod Types
pub mod Pathings
pub mod Setup
pub mod Chain
pub mod Collect
pub mod Registers
pub mod Machine
pub mod Indexing
pub mod Edges
pub mod FirstOnce
pub mod Heights
pub mod Cycle
pub mod Growth
