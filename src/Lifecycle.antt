-- ===== src/Lifecycle.antt =====
-- Starting and stopping the process: core/app_lifecycle.cpp and core/shutdown_coordinator.cpp.
pub mod App
pub mod Order
pub mod AppLaws
pub mod Registration
pub mod Shutdown
pub mod ShutdownLaws
mod Tests
