-- ===== src/Repository.antt =====
-- The repositories of internal/repository. Each SQL statement is a function on the rows of a table,
-- in the order in which they were inserted, with the columns' defaults and the constraints of
-- migrations/: a statement that violates one fails and changes nothing. Any statement may also fail
-- for a reason of the server's own. `none` is the Go `err != nil`.
pub mod Rows
pub mod Pages
pub mod Keeps
pub mod Invert
pub mod Tokens
pub mod VaultEntries
pub mod Tenants
pub mod AuditLog
