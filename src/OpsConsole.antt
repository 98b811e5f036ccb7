-- ===== src/OpsConsole.antt =====
-- The operations of the console (src/components/OpsConsole.tsx): what they do to the console's data in
-- demo mode, in Updates and Controls.
pub mod Updates
pub mod Controls
pub mod Actions
pub mod Forms
pub mod Handlers
pub mod Views
pub mod Filters
pub mod Tests
