-- ===== src/Net.antt =====
-- The HTTP client: lib/net.
pub mod Url
pub mod Cookie
pub mod Encoding
pub mod Mime
pub mod Redirect
pub mod Client
pub mod Chunked
pub mod Decoders
