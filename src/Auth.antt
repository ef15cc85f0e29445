-- ===== src/Auth.antt =====
-- loom/auth: identities and API tokens.
pub mod Context
pub mod ApiTokens
