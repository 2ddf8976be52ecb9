-- ===== src/Tests.antt =====
-- The theorems at concrete inputs, and sample data.
mod Samples
mod Wire
mod Lines
mod Peers
mod Control
mod Setup
mod Process
mod Tor
mod Calls
mod Storage
mod Clients
mod Relay
mod Teardown
