-- ===== src/Scenarios.antt =====
-- Runs of the models on concrete inputs, and the theorems at them.
mod Indexer
mod Walks
mod Tries
mod Registers
mod Feeds
mod Database
mod Contents
mod Chains
mod Remote
mod Log
mod Checkpoints
mod Flattening
