-- ===== src/Sched.antt =====
-- sys/sched and sys/include/sys/queue.h: queues, processes and the scheduler.
pub mod Queue
pub mod Types
pub mod Process
pub mod Pid
pub mod Switch
pub mod Start
pub mod Trap
mod Tests
