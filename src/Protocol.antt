-- ===== src/Protocol.antt =====
-- The redis protocol, from the link to requests.
pub mod Link
pub mod BufferedReader
pub mod RedisParser
