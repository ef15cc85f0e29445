-- ===== src/Api.antt =====
-- loom/api and loom/infra: what stands between a request and a run.
pub mod RateLimiter
pub mod RunAccess
pub mod Webhooks
