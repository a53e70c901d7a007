-- ===== src/Tests.antt =====
-- A small world to run the model in, and the theorems applied in it.
mod World
mod Vault
mod Proxy
mod Texts
mod Tokens
mod Starting
mod Runs
mod Delivered
mod Answers
mod Interleaved
