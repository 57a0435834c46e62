-- ===== src/Tests.antt =====
-- The theorems at concrete inputs.
mod Managers
mod Encodings
mod Offloads
mod Clients
mod Others
mod Archives
mod Streams
mod Races
mod Pipelines
