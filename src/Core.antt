-- ===== src/Core.antt =====
-- voteit/core: state charts, roles and permission rules.
pub mod Chart
pub mod Roles
