-- ===== src/Connmgr.antt =====
-- src/upnp_connmgr.c: the ConnectionManager service.
pub mod MimeTypes
pub mod Service
pub mod Registered
pub mod Info
