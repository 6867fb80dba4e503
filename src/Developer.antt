-- ===== src/Developer.antt =====
-- src/developer: the form of the portal, and what the portal does for the owner of an application.
pub mod Form
pub mod Apps
