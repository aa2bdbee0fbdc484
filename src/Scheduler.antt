-- ===== src/Scheduler.antt =====
-- internal/scheduler: queued dispatch of browser tasks.
pub mod Task
pub mod Queue
pub mod Results
pub mod Metrics
pub mod State
pub mod Submit
pub mod Cancel
pub mod Dispatch
pub mod Config
pub mod Batch
pub mod System
mod Samples
mod Tests
