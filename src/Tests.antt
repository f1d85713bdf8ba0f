-- ===== src/Tests.antt =====
-- The theorems at concrete inputs, and runs of the definitions.
mod Streams
mod Client
mod Email
mod Remote
mod Verify
mod Documents
mod Inline
mod Setup
mod Settings
