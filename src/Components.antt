-- ===== src/Components.antt =====
-- The components of web/src/components that keep a state of their own.
pub mod Animated
pub mod LongPress
pub mod Layout
