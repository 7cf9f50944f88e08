-- ===== src/Tests.antt =====
-- The theorems at inputs that meet their conditions, and runs of the model, one module for each part.
mod RateLimit
mod Access
mod Schedules
mod Files
mod Servers
mod Users
mod Tokens
mod Backups
mod Runtime
mod Tunnels
mod Login
mod Ulid
