-- ===== src/Tests.antt =====
-- The theorems at concrete inputs, and runs of the definitions.
mod Samples
mod Records
mod Controller
mod Children
mod Owners
mod Providers
mod Plugin
mod Commands
mod Ttl
mod Stores
mod Cluster
mod Workers
mod Published
mod Rounds
mod Starting
mod Interleaving
mod Delivery
mod Admission
mod Loopback
mod Addresses
