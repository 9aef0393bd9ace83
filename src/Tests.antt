-- ===== src/Tests.antt =====
-- The theorems at concrete inputs, and runs of the models.
mod Supervision
mod Modes
mod Latches
mod Rig
mod Routing
mod Publishing
mod Caching
mod Frames
mod Stopping
mod Observing
mod Configs
mod Documents
mod Journals
