-- ===== src/Tracker.antt =====
-- service/tracker and service/initializer: what feeds the mapper with blocks and trie updates.
pub mod Execution
pub mod Consensus
pub mod Catchup
