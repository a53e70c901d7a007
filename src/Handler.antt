-- ===== src/Handler.antt =====
-- internal/handler: one function for each HTTP handler. A handler begins at the decoded body, `none`
-- where the JSON decoder returned an error, and ends with the response that it writes.
pub mod Common
pub mod Paging
pub mod Keeps
pub mod Tokenize
pub mod Detokenize
pub mod TokenManage
pub mod Tenant
pub mod Health
