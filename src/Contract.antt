-- ===== src/Contract.antt =====
-- What the two services rely on in one another: the shape of token ids, and the reveal calls.
pub mod TokenId
pub mod AuditTrail
pub mod Rejected
pub mod Reveal
pub mod Delivery
