-- ===== src/Tests.antt =====
-- Runs of the theorems on concrete inputs.
mod Support
mod Types
mod Parse
mod Stream
mod Framing
mod Client
mod Exchange
mod Steps
mod Replies
mod Faults
mod Receiving
mod Repository
