-- ===== src/Store.antt =====
-- The package redisstream for one stream: the Lua scripts and the Go code that calls them.
pub mod Scripts
pub mod Fields
pub mod Client
pub mod Warnings
pub mod Enqueue
pub mod Claim
pub mod Backend
pub mod Actions
