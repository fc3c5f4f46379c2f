-- ===== src/App.antt =====
-- The application: app/src and app/include.
pub mod Store
pub mod Commands
pub mod Integrations
pub mod AppStore
pub mod Main
