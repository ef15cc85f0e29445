-- ===== src/Provisioning.antt =====
-- loom/scim: users and groups that an identity provider manages.
pub mod Scim
