-- ===== src/Examples.antt =====
-- Runs of the model on small inputs: each property at a place where its hypotheses hold.
mod Storage
mod Protocol
mod Server
mod Recovery
mod Compaction
mod Network
