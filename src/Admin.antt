-- ===== src/Admin.antt =====
-- The admin API: prorag/admin/router.py.
pub mod Fields
pub mod Grants
pub mod Groups
pub mod Rules
pub mod Usage
pub mod Views
