-- ===== src/Tests.antt =====
-- Runs of the model on concrete packets, and the theorems at concrete inputs.
pub mod Packets
pub mod OneEntry
pub mod Cache
mod CacheFiles
mod Verdicts
pub mod Routing
mod Routes
mod Flights
mod Addresses
mod Subnets
mod Queries
mod Responses
mod Replies
mod State
mod Upstream
mod Log
