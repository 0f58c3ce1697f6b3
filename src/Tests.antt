-- ===== src/Tests.antt =====
-- Runs of the models at concrete inputs, one module for each part of the program.
mod Profiles
mod Reports
mod Rings
mod Walks
mod Offsets
mod Cores
mod Interpreters
mod Encoding
mod Agents
mod Signals
mod Backends
mod Mailboxes
