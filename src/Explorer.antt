-- ===== src/Explorer.antt =====
-- The file explorer (web/src/pages/home-page): one child for each part of it.
pub mod Types
pub mod Order
pub mod Controller
pub mod Actions
pub mod Dialogs
pub mod Listing
pub mod Rows
pub mod Files
pub mod Targets
pub mod Uploads
pub mod View
pub mod Upload
pub mod DropZone
pub mod Preview
pub mod Toolbar
pub mod Frame
pub mod Information
pub mod Navigation
pub mod CopyDialog
mod Tests
