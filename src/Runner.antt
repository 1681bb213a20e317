-- ===== src/Runner.antt =====
-- internal/app/runner.go: the entry point of the webhook's deliveries.
pub mod Dedup
pub mod Handle
