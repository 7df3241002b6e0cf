-- ===== src/Scheduler.antt =====
-- agent/internal/multilane/scheduler.go: bounded queues for each traffic class, served by
-- byte-weighted deficit round robin. `State` holds the data and the small operations, `Admission` the
-- way into the queues, `Select` the choice of the next request, `Steps` the atomic sections of Send,
-- Close and the pump; the other modules prove.
pub mod State
pub mod Admission
pub mod Select
pub mod Steps
pub mod Selected
pub mod Peek
pub mod Turns
pub mod Progress
pub mod Burst
pub mod Invariant
pub mod Admitted
pub mod Cancelled
pub mod Failed
pub mod Pumped
mod Tests
