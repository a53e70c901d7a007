-- ===== src/Interleaving.antt =====
-- Calls that are served at once: net/http runs each in a goroutine of its own, and between two
-- statements of one call those of others may run. A handler's code is cut at each external call. What
-- every statement keeps is kept by calls in any order, and by calls one after the other (Routes/Keeps).
pub mod Code
pub mod Program
pub mod Keeps
pub mod Actions
pub mod Handlers
pub mod Calls
pub mod Service
pub mod Invariants
pub mod Alone
pub mod Revealed
pub mod Asked
pub mod Delivered
