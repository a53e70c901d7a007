-- ===== src/Proxy.antt =====
-- internal/proxy and the handler of POST /proxy/forward.
mod Http
pub mod Header
pub mod Revealer
pub mod Forwarder
pub mod ForwardHandler
pub use Http.{HttpRequest, HttpResponse, Answer, no_answer, answered, Network}
