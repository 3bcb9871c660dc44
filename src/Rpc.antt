-- ===== src/Rpc.antt =====
-- src/rpc: the request and response messages, the protocol identifiers and the rate limiter.
pub mod Methods
pub mod Protocol
pub mod RateLimiter
pub mod Messages
pub mod Handler
pub mod Codec
pub mod Behaviour
pub mod Examples
