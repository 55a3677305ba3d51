-- ===== src/Tests.antt =====
-- The theorems at concrete inputs.
mod Connections
mod Captures
mod Games
mod Transcoders
mod Hosts
mod Paths
mod AccountRequests
mod Streams
mod Recorders
mod Passes
mod Guides
mod Fronts
mod RecordingRequests
