-- ===== src/Tests.antt =====
-- Sample runs of the engine over the in-memory store.
mod Sample
mod Databases
mod Servers
mod Runs
mod Engines
mod Parts
mod Reads
mod Witnesses
mod Stores
mod Services
