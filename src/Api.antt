-- ===== src/Api.antt =====
-- internal/api/v2: the handlers that read, create and patch events.
pub mod Response
pub mod View
pub mod Visible
pub mod Patch
pub mod Create
pub mod Joining
pub mod System
pub mod Regular
pub mod Extract
pub mod UpdateText
pub mod Components
pub mod Query
pub mod Notifications
