-- ===== src/Body.antt =====
-- src/body.rs: the body of a request as a buffer, the filter that takes it, and the limit of its length.
pub mod Buffer
pub mod Take
pub mod Limit
