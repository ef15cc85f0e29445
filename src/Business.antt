-- ===== src/Business.antt =====
-- loom/business: plans and quotas, roles, metering, billing and the policies on patches.
pub mod Models
pub mod Rbac
pub mod Entitlements
pub mod UsageLedger
pub mod Billing
pub mod Rollup
pub mod AuditLog
pub mod PathPolicy
pub mod PostMerge
