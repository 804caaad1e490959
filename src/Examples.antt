-- ===== src/Examples.antt =====
-- The theorems applied to concrete inputs, part by part.
mod Queues
mod Pools
mod Buffers
mod Events
mod Nets
mod Posts
mod Timers
mod Waits
mod Lines
mod Threads
mod Servers
mod Workers
mod Singletons
mod Logs
mod Settings
