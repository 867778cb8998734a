-- ===== src/Http.antt =====
-- The HTTP/1.1 request side, c/http.
pub mod Bytes
pub mod Chunked
pub mod RequestBody
pub mod Input
pub mod Reader
pub mod Parser
