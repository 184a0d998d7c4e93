-- ===== src/Examples.antt =====
-- The theorems at work on concrete inputs.
mod Libraries
mod JsonText
mod Streams
mod Transfers
mod Pairings
mod Videos
mod Programs
mod Devices
mod Ports
mod Places
mod Entries
mod Servers
mod Exchanges
mod Lives
