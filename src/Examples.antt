-- ===== src/Examples.antt =====
-- Concrete runs: each theorem at an input that meets its conditions.
mod Data
mod Encoding
mod Sharing
mod Attacks
mod Resources
mod Running
mod Requests
mod Options
mod Kept
mod Discovered
mod Described
mod Engines
mod Started
