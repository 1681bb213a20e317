-- ===== src/Activity.antt =====
-- internal/app/activity.go: what a worker's tracker keeps of its session's events. The rendering
-- of numbers and times by the `fmt` and `time` packages is a parameter, and so is that of a tool
-- call's arguments. The mutex makes each call one step.
pub mod Tracker
pub mod Labels
pub mod Record
