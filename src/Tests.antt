-- ===== src/Tests.antt =====
-- The theorems at concrete inputs.
mod Samples
mod Stores
mod Streams
mod Collections
mod Servers
mod Texts
mod Documents
mod Files
mod Wires
mod Uploads
mod Keys
mod Secrets
mod Jobs
