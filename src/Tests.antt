-- ===== src/Tests.antt =====
-- Concrete runs of the modules, and a use of each result at concrete values.
pub mod Payload
pub mod Kanban
pub mod Router
pub mod Dispatcher
pub mod Activity
pub mod Template
pub mod LocalBoard
pub mod Trello
pub mod Server
pub mod GitHub
