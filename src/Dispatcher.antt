-- ===== src/Dispatcher.antt =====
-- internal/app/dispatcher.go and internal/app/routing.go: events go to one worker per card.
pub mod Routing
pub mod System
pub mod Steps
pub mod Every
pub mod Order
pub mod Unique
pub mod Halted
