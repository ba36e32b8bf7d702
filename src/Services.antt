-- ===== src/Services.antt =====
-- pingoo/services/: what stands behind a listener.
pub mod HttpProxy
pub mod HeaderMap
pub mod Forwarded
pub mod Answered
pub mod New
pub mod TcpProxy
pub mod StaticSite
pub mod FoundFile
pub mod Fresh
pub mod Cached
mod Tests
